-- ===== src/Message/RoundTrip.antt =====
-- A message that is sent is received as it was (`serialize`, `receive_message_impl`, `send_message` and
-- `receive_message` of client-cpp/src/message.cpp).
pub mod Written
pub mod Texts
pub mod Numbers
pub mod Lists
use cross_language_lan_chatr.Prelude.{
  ℕ, zero, suc, ◌+◌, ◌-◌, ◌^◌, ◌<◌, ◌≤◌, ◌≡◌, refl, sym, ap, ◌∙◌, subst, Bool, true, false, not,
  ◌&&◌, ◌||◌, Option, none, some, List, [], ◌∷◌, ◌++◌, arith, if◌then◌else◌, ltb, ltb_ℤ, ◌==◌,
  is_empty, map, all, Bytes, codes, same, ℤ, pos, negsuc,
}
use cross_language_lan_chatr.Protocol.{Channel, Errors, World, send_frame}
use cross_language_lan_chatr.Protocol.Frame.{frame}
use cross_language_lan_chatr.Protocol.Send.{Delivers, send_frame-wire}
use cross_language_lan_chatr.Protocol.Receive.{recv_frame_delivers}
use cross_language_lan_chatr.Protocol.Receive.Loop.{Streams, Flows}
use mathlib.Core.List.{append-nil}
use cross_language_lan_chatr.Json.{
  Json, boolean, integer, text, array, object, Items, item, no_items, items_of, Members, no_members,
  get, set_all, set_key, less, Entry,
}
use cross_language_lan_chatr.Json.Build.{get-set_all_new, pick}
use cross_language_lan_chatr.Message.{
  Library, OnlineUser, RoomInfo, Header, empty_header, Message, message, no_messages, Error,
  wrong_type, indexes_array, indexes_value, users_array, users_value, rooms_array, rooms_value,
  user_details_array, user_details_member, room_details_array, room_details_room, Checked, fine,
  refused, ◌>>=◌,
}
use cross_language_lan_chatr.Message.Serialize.{
  text_entry, entries, serialize, serialize_all, is_zero, chunk_type, user_value, room_value,
  list_value,
}
use cross_language_lan_chatr.Message.Receive.{
  read_numbers, read_lists, read_object, read_payload, read_parsed, check_mls, on_frame,
  receive_message, send_message, type_of, messages_of,
}
use cross_language_lan_chatr.Message.Fields.{
  Field, set_text, read_texts, texts, set_flag, Flag, read_flags, flags, Number, read_integers,
  limits, metadata, is_missing, set_integer, set_epoch, set_crypto, set_bitmap, read_items,
  read_array, text_of, int64_of, user_of, room_of, signed, residue,
}
use cross_language_lan_chatr.Message.RoundTrip.Written.{
  text_option, built, got, with_texts, with_flags, with_limit, with_epoch, with_numbers, with_lists,
  Fits, bind-step,
}
use cross_language_lan_chatr.Message.RoundTrip.Texts.{read_texts-Reads, texts-Reads}
use cross_language_lan_chatr.Message.RoundTrip.Numbers.{numbers-read}
use cross_language_lan_chatr.Message.RoundTrip.Lists.{lists-read}

type-read : (m : Header) → type_of (get (codes "type") (built m)) ≡ fine m.type
unfolding same
type-read m = ap type_of (got (codes "type") m)

nested-read : (m : Header) → messages_of (get (codes "messages") (built m)) ≡ fine no_messages
unfolding same
nested-read m = ap messages_of (got (codes "messages") m)

object-read :
    (library : Library) (m : Header)
    → Fits m
    → check_mls m ≡ fine tt
    → read_object library (built m) ≡ fine (message (with_lists m) no_messages)
unfolding read_object check_mls
object-read library m f mls = bind-step _ _ _ _ (type-read m) (
    bind-step _ _ _ _ (read_texts-Reads wrong_type texts (built m) _ (with_texts m) (texts-Reads m))
      (bind-step _ _ _ _ (numbers-read library m f) (
        bind-step _ _ _ _ (lists-read library m f)
          (bind-step _ _ _ _ (nested-read m) (bind-step _ _ _ _ mls refl)))))

serialize-built :
    (library : Library) (m : Header)
    → m.crypto ≡ []
    → serialize library (message m no_messages) ≡ some (object (built m))
unfolding serialize built
serialize-built library m e = rw e refl

-- A message without cryptography, password and nested messages, whose numbers fit in their types, whose
-- limit is not negative and whose MLS part is base64, is written to a text that is read back as that message; relied on:
-- the JSON library reads the object that it has written.
pub read_payload-serialize :
    (library : Library) (m : Header) (v : Json)
    → m.crypto ≡ []
    → m.password ≡ []
    → Fits m
    → check_mls m ≡ fine tt
    → serialize library (message m no_messages) ≡ some v
    → library.parse (library.dump v) ≡ some v
    → read_payload library (library.dump v) ≡ fine (message m no_messages)
unfolding read_payload
read_payload-serialize library m v c p f mls e law =
    let written : v ≡ object (built m) = some_injective (sym e ∙ serialize-built library m c) in
    ap (read_parsed library) (law ∙ ap some written)
    ∙ object-read library m f mls
    ∙ ap (λ h. fine (message h no_messages))
        (λ i. record m { crypto = sym c i; password = sym p i })
  where
    some_injective : {a b : Json} → some a ≡ some b → a ≡ b
    some_injective e = cc e

-- One connection, as in `Protocol.RoundTrip`.
module _ (a b : Channel) (ea : Errors a.Socket) (eb : Errors b.Socket) (da : Delivers a)
    (db : Streams b) (flows : Flows b db) where
  -- A message without cryptography, password and nested messages, whose numbers fit in their types,
  -- whose limit is not negative and whose MLS part is base64, and that is sent with nothing written
  -- before it still unread, is received as that message with nothing left over, however either socket
  -- splits the bytes; relied on: the JSON library reads the object that it has written for the message.
  pub send_message-receive_message :
      (library : Library) (m : Header) (w v : World a.Socket) (r : World b.Socket)
      → m.crypto ≡ []
      → m.password ≡ []
      → Fits m
      → check_mls m ≡ fine tt
      → ((value : Json)
          → serialize library (message m no_messages) ≡ some value
          → library.parse (library.dump value) ≡ some value)
      → da.wire w.socket ≡ []
      → send_message library a ea (message m no_messages) w ≡ some (some (true, v))
      → db.incoming r.socket ≡ da.wire v.socket
      → (t : World b.Socket) × (receive_message library b eb r
          ≡ some (fine (message m no_messages), t))
        × (db.incoming t.socket ≡ [])
  unfolding send_message receive_message
  send_message-receive_message library m w v r c p f mls law empty h linked =
      let value = object (built m) in
      let written = serialize-built library m c in
      let payload = library.dump value in
      let framed : send_frame a ea payload w ≡ some (true, v) =
        sent payload (rw (written, send_message) at h) in
      let (fits, wire) = send_frame-wire a ea da payload w v framed in
      let (t, got, left) =
        recv_frame_delivers b eb db flows payload [] r fits
          (linked ∙ wire ∙ ap (λ s. s ++ frame payload) empty ∙ sym (append-nil (frame payload))) in
      (
        t,
        ap (on_frame library b eb) got
            ∙ ap (λ x. some (x, t))
                (read_payload-serialize library m value c p f mls written (law value written)),
        left,
      )
    where
      sent :
          (payload : Bytes)
          → some (send_frame a ea payload w) ≡ some (some (true, v))
          → send_frame a ea payload w ≡ some (true, v)
      sent payload e = cc e
