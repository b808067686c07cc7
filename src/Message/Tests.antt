-- ===== src/Message/Tests.antt =====
-- Tests and examples for client-cpp/src/message.cpp.
use cross_language_lan_chatr.Prelude.{
  ◌≡◌, refl, ◌↔◌, true, false, none, some, [], ◌∷◌, if◌then◌else◌, Bytes, codes, same, pos,
}
use cross_language_lan_chatr.Json.{
  Json, integer, text, array, object, item, no_items, member, no_members, set_key, set_all, less,
}
use cross_language_lan_chatr.Protocol.{
  World, send_frame, send_all, send_loop, encode_length, tls_errors,
}
use cross_language_lan_chatr.Protocol.Frame.{frame}
use cross_language_lan_chatr.Protocol.Trickle.{
  trickle, trickle_delivers, trickle_streams, trickle_flows, ends, start, holding,
}
use cross_language_lan_chatr.Message.{
  Library, Header, empty_header, message, no_messages, fine, refused, bitmap_digit, parse_failed,
}
use cross_language_lan_chatr.Message.Base64.{is_base64, base64_loop, Base64, is_base64_iff}
use cross_language_lan_chatr.Message.Bitmap.{
  read_bitmap, bitmap_loop, bit_loop, hex_digit, Decoded, read_bitmap-Decoded,
}
use cross_language_lan_chatr.Message.Serialize.{serialize}
use cross_language_lan_chatr.Message.Receive.{
  read_payload, receive_message, send_message, check_mls,
}
use cross_language_lan_chatr.Message.RoundTrip.Written.{Fits}
use cross_language_lan_chatr.Message.RoundTrip.{send_message-receive_message}

abbrev hello : Header
hello = record empty_header {
  type = codes "chat";
  username = codes "ann";
  content = codes "hi";
  users = codes "ann" ∷ codes "bob" ∷ [];
  limit = pos 20;
}

abbrev hello_json : Json
hello_json = object (
    member (codes "content") (text (codes "hi")) (
      member (codes "limit") (integer (pos 20)) (
        member (codes "type") (text (codes "chat")) (
          member (codes "username") (text (codes "ann")) (
            member (codes "users")
              (array (item (text (codes "ann")) (item (text (codes "bob")) no_items)))
              no_members)))))

abbrev hello_text : Bytes
hello_text =
    codes "{'content':'hi','limit':20,'type':'chat','username':'ann','users':['ann','bob']}"

-- A library that knows one text.
abbrev one_text : Library
one_text = record {
  parse = λ s. if same s hello_text then some hello_json else none;
  dump = λ v. hello_text;
}

hello-serialize : serialize one_text (message hello no_messages) ≡ some hello_json
unfolding serialize set_all set_key same less
hello-serialize = refl

abbrev hello_fits : Fits hello
hello_fits = record {
  limit = refl;
  limit_nonneg = λ e. absurd (cc e);
  logical_size = refl;
  chunk_size = refl;
  chunk_index = refl;
  indexes = refl;
}

hello-check_mls : check_mls hello ≡ fine tt
unfolding check_mls same
hello-check_mls = refl

hello-parse : one_text.parse (one_text.dump hello_json) ≡ some hello_json
unfolding same
hello-parse = refl

hello-law :
    (v : Json)
    → serialize one_text (message hello no_messages) ≡ some v
    → one_text.parse (one_text.dump v) ≡ some v
hello-law v e = cc (e, hello-serialize, hello-parse)

hello-sent :
    send_message one_text trickle ends (message hello no_messages) start
    ≡ some (some (true, holding (frame hello_text)))
unfolding send_message serialize set_all set_key same less send_frame send_all send_loop
    encode_length tls_errors
hello-sent = refl

send_message-receive_message_example :
    (t : World Bytes) × (receive_message one_text trickle ends (holding (frame hello_text))
      ≡ some (fine (message hello no_messages), t))
    × (t.socket ≡ [])
send_message-receive_message_example =
    send_message-receive_message trickle trickle ends ends trickle_delivers trickle_streams
      trickle_flows one_text hello start (holding (frame hello_text)) (holding (frame hello_text))
      refl refl hello_fits hello-check_mls hello-law refl hello-sent refl

not_json : read_payload one_text (codes "hi") ≡ refused parse_failed
unfolding read_payload same
not_json = refl

padded : is_base64 (codes "QQ==") ≡ true
unfolding is_base64 base64_loop
padded = refl

padded_early : is_base64 (codes "Q=Q=") ≡ false
unfolding is_base64 base64_loop
padded_early = refl

is_base64_iff_example : (is_base64 (codes "QQ==") ≡ true) ↔ Base64 (codes "QQ==")
is_base64_iff_example = is_base64_iff (codes "QQ==")

two_bytes : read_bitmap (codes "0501") ≡ fine (0 ∷ 2 ∷ 8 ∷ [])
unfolding read_bitmap bitmap_loop bit_loop hex_digit
two_bytes = refl

bad_digit : read_bitmap (codes "0g") ≡ refused bitmap_digit
unfolding read_bitmap bitmap_loop hex_digit
bad_digit = refl

read_bitmap-Decoded_example : Decoded 0 (codes "0501") (0 ∷ 2 ∷ 8 ∷ [])
read_bitmap-Decoded_example = read_bitmap-Decoded (codes "0501") (0 ∷ 2 ∷ 8 ∷ []) two_bytes
