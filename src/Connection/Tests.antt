-- ===== src/Connection/Tests.antt =====
-- Tests and examples for client-cpp/src/connection.cpp.
use cross_language_lan_chatr.Prelude.{
  ℕ, ◌≡◌, refl, true, false, none, some, [], ◌∷◌, ◌++◌, if◌then◌else◌, length, take, drop,
  replicate, Bytes, codes, same, pos,
}
use cross_language_lan_chatr.Json.{
  Json, text, object, member, no_members, get, set_key, set_all, less,
}
use cross_language_lan_chatr.Protocol.{
  Channel, Errors, World, sent, received, send_frame, send_all, send_loop, recv_frame, recv_all,
  recv_loop, encode_length, decode_length, tls_errors,
}
use cross_language_lan_chatr.Protocol.Frame.{frame}
use cross_language_lan_chatr.Message.{Library, Message, empty_header, message, no_messages, fine}
use cross_language_lan_chatr.Message.Serialize.{serialize}
use cross_language_lan_chatr.Message.Fields.{
  read_texts, read_flags, read_integers, set_epoch, set_crypto, set_bitmap,
}
use cross_language_lan_chatr.Message.Receive.{
  send_message, receive_message, read_payload, read_object, read_numbers, read_lists, check_mls,
}
use cross_language_lan_chatr.Connection.{
  Config, State, connect_and_login, advance, request_stop, receive, fresh, is_ready, login_message,
}
use cross_language_lan_chatr.Connection.Threads.{run}
use cross_language_lan_chatr.Connection.Sound.Sections.{Sound}
use cross_language_lan_chatr.Connection.Sound.{run-fresh-Sound}
use cross_language_lan_chatr.Connection.Stopped.Sections.{Halted}
use cross_language_lan_chatr.Connection.Stopped.{stop-Halted}
use cross_language_lan_chatr.Connection.Phases.{offline, Follows, phases, run-Moves}
use cross_language_lan_chatr.Connection.Login.{Answers, last, pending, Outcome, login_ends}

-- What has been written and what is still to be read.
abbrev duplex : Channel
duplex = record {
  Socket = Bytes × Bytes;
  send = λ s bytes. (sent (length bytes), (s.0 ++ bytes, s.1));
  recv = λ s n. (received (take n s.1), (s.0, drop n s.1));
  error_code = λ _. 0;
  zero_return = λ _. true;
}

abbrev ends : Errors (Bytes × Bytes)
ends = tls_errors duplex

abbrev answer : Bytes → Json
answer type = object (member (codes "type") (text type) no_members)

abbrev server : Library
server = record {
  parse = λ s.
      if same s (codes "K")
      then some (answer (codes "login_ok"))
      else some (answer (codes "login_pending"));
  dump = λ v. codes "L";
}

abbrev config : Config
config = record {
  server_ip = codes "10.0.0.1";
  server_port = pos 7000;
  username = codes "ann";
  user_code = codes "ANN00001";
  ca_file = [];
  tls_server_name = [];
}

abbrev link : Bytes → Bytes → World (Bytes × Bytes)
link out incoming = record { socket = (out, incoming); last_error = none }

abbrev cut_off : Bytes × Bytes → Bytes × Bytes
cut_off s = (s.0, [])

abbrev new : State (Bytes × Bytes)
new = fresh (λ i. link [] (frame (codes "P") ++ frame (codes "K")))

abbrev reply : Bytes → Message
reply type = message (record empty_header { type = type }) no_messages

login-sent :
    send_message server duplex ends
      (login_message config)
      (link [] (frame (codes "P") ++ frame (codes "K")))
    ≡ some (some (true, link (frame (codes "L")) (frame (codes "P") ++ frame (codes "K"))))
unfolding send_message serialize set_all set_key same less send_frame send_all send_loop
    encode_length tls_errors
login-sent = refl

pending-received :
    receive_message server duplex ends
      (link (frame (codes "L")) (frame (codes "P") ++ frame (codes "K")))
    ≡ some (fine (reply (codes "login_pending")), link (frame (codes "L")) (frame (codes "K")))
unfolding receive_message recv_frame recv_all recv_loop encode_length decode_length read_payload
    read_object read_numbers read_lists read_texts read_flags read_integers set_epoch set_crypto
    set_bitmap check_mls get same
pending-received = refl

ok-received :
    receive_message server duplex ends (link (frame (codes "L")) (frame (codes "K")))
    ≡ some (fine (reply (codes "login_ok")), link (frame (codes "L")) [])
unfolding receive_message recv_frame recv_all recv_loop encode_length decode_length read_payload
    read_object read_numbers read_lists read_texts read_flags read_integers set_epoch set_crypto
    set_bitmap check_mls get same
ok-received = refl

answers :
    Answers server duplex ends cut_off config
      (link (frame (codes "L")) (frame (codes "P") ++ frame (codes "K")))
      (reply (codes "login_ok"))
unfolding same
answers =
    pending (reply (codes "login_pending")) (link (frame (codes "L")) (frame (codes "K")))
      pending-received refl
      (last (reply (codes "login_ok")) (link (frame (codes "L")) []) ok-received refl)

login_ends_example :
    (n : ℕ) × Outcome server duplex ends cut_off config
      (reply (codes "login_ok"))
      (run server duplex ends cut_off config (connect_and_login ∷ replicate n (advance true)) new)
login_ends_example =
    login_ends server duplex ends cut_off config new
      (link (frame (codes "L")) (frame (codes "P") ++ frame (codes "K"))) (reply (codes "login_ok"))
      refl refl refl login-sent answers

run-fresh-Sound_example : Sound (
    run server duplex ends cut_off config
      (connect_and_login ∷ advance true ∷ receive ∷ [])
      (fresh (λ i. link [] (frame (codes "P") ++ frame (codes "K")))))
run-fresh-Sound_example =
    run-fresh-Sound server duplex ends cut_off config
      (λ i. link [] (frame (codes "P") ++ frame (codes "K")))
      (connect_and_login ∷ advance true ∷ receive ∷ [])

stop-Halted_example :
    Halted 0 none none (
      run server duplex ends cut_off config
        (request_stop ∷ connect_and_login ∷ advance true ∷ [])
        new)
    × (is_ready (
          run server duplex ends cut_off config
            (request_stop ∷ connect_and_login ∷ advance true ∷ [])
            new)
        ≡ false)
stop-Halted_example =
    stop-Halted server duplex ends cut_off config new (connect_and_login ∷ advance true ∷ [])

run-Moves_example : Follows offline (connect_and_login ∷ advance true ∷ request_stop ∷ []) (
    phases server duplex ends cut_off config
      (connect_and_login ∷ advance true ∷ request_stop ∷ [])
      (fresh (λ i. link [] (frame (codes "P") ++ frame (codes "K")))))
run-Moves_example =
    run-Moves server duplex ends cut_off config
      (λ i. link [] (frame (codes "P") ++ frame (codes "K")))
      (connect_and_login ∷ advance true ∷ request_stop ∷ [])
