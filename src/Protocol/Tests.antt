-- ===== src/Protocol/Tests.antt =====
-- The theorems about frames (client-cpp/src/protocol.cpp) on a connection that moves one byte at a time.
use cross_language_lan_chatr.Prelude.{
  ℕ, zero, suc, ◌≡◌, ◌≤◌, refl, sym, ap, ◌∙◌, Bool, true, Option, none, some, [], ◌∷◌, ◌++◌, arith,
  length, take, Bytes, codes,
}
use cross_language_lan_chatr.Protocol.Frame.{frame, IsPayload}
use mathlib.Core.List.{append-nil}
use cross_language_lan_chatr.Protocol.Send.{Delivers, send_frame-wire, send_frame_returns}
use cross_language_lan_chatr.Protocol.Partial.{Refuses}
use cross_language_lan_chatr.Protocol.Receive.{
  recv_frame_returns, recv_frame_sound, recv_frame_delivers,
}
use cross_language_lan_chatr.Protocol.Trickle.{
  trickle, trickle_delivers, trickle_streams, trickle_flows, ends, start, holding,
}
use cross_language_lan_chatr.Protocol.RoundTrip.{send_two-recv_two}
use cross_language_lan_chatr.Protocol.{
  Channel, World, SendResult, send_error, sent, recv_error, ssl_write_failed, send_all, send_loop,
  send_frame, recv_all, recv_loop, recv_frame, encode_length, decode_length, tls_errors,
}

send_hello :
    send_frame trickle ends (codes "hello") start ≡ some (true, holding (frame (codes "hello")))
unfolding send_frame send_all send_loop encode_length tls_errors
send_hello = refl

send_you :
    send_frame trickle ends (codes "you") (holding (frame (codes "hello")))
    ≡ some (true, holding (frame (codes "hello") ++ frame (codes "you")))
unfolding send_frame send_all send_loop encode_length tls_errors
send_you = refl

recv_hello :
    recv_frame trickle ends (holding (frame (codes "hello") ++ codes "xyz"))
    ≡ some (some (codes "hello"), holding (codes "xyz"))
unfolding recv_frame recv_all recv_loop encode_length decode_length
recv_hello = refl

send_frame_returns_example :
    (q : Bool × World Bytes) × (send_frame trickle ends (codes "hello") start ≡ some q)
send_frame_returns_example = send_frame_returns trickle ends (codes "hello") start

send_frame-wire_example :
    IsPayload (codes "hello") × (frame (codes "hello") ≡ [] ++ frame (codes "hello"))
send_frame-wire_example =
    send_frame-wire trickle ends trickle_delivers (codes "hello") start
      (holding (frame (codes "hello"))) send_hello

recv_frame_returns_example :
    (q : Option Bytes × World Bytes) × (recv_frame trickle ends (holding (codes "abc")) ≡ some q)
recv_frame_returns_example = recv_frame_returns trickle ends (holding (codes "abc"))

recv_frame_sound_example :
    (header : Bytes) × (length header ≡ 4)
    × (decode_length header ≡ 5)
    × IsPayload (codes "hello")
    × (frame (codes "hello") ++ codes "xyz" ≡ header ++ (codes "hello" ++ codes "xyz"))
recv_frame_sound_example =
    recv_frame_sound trickle ends trickle_streams (codes "hello")
      (holding (frame (codes "hello") ++ codes "xyz")) (holding (codes "xyz")) recv_hello

recv_frame_delivers_example :
    (v : World Bytes) × (recv_frame trickle ends (holding (frame (codes "hello") ++ codes "xyz"))
      ≡ some (some (codes "hello"), v))
    × (v.socket ≡ codes "xyz")
recv_frame_delivers_example =
    recv_frame_delivers trickle ends trickle_streams trickle_flows (codes "hello") (codes "xyz")
      (holding (frame (codes "hello") ++ codes "xyz")) (omega arith) refl

send_two-recv_two_example :
    (s t : World Bytes) × (recv_frame trickle ends
        (holding (frame (codes "hello") ++ frame (codes "you")))
      ≡ some (some (codes "hello"), s))
    × (recv_frame trickle ends s ≡ some (some (codes "you"), t))
    × (t.socket ≡ [])
send_two-recv_two_example =
    send_two-recv_two trickle trickle ends ends trickle_delivers trickle_streams trickle_flows
      (codes "hello") (codes "you") start (holding (frame (codes "hello")))
      (holding (frame (codes "hello") ++ frame (codes "you")))
      (holding (frame (codes "hello") ++ frame (codes "you"))) refl send_hello send_you refl

-- A connection that takes as many calls as its first part says, a byte each, and then fails.
abbrev send_few : ℕ × Bytes → Bytes → SendResult × (ℕ × Bytes)
send_few (zero, s) bytes = (send_error, (zero, s))
send_few (suc k, s) [] = (sent 0, (suc k, s))
send_few (suc k, s) (b ∷ bs) = (sent 1, (k, s ++ b ∷ []))

abbrev clogging : Channel
clogging = record {
  Socket = ℕ × Bytes;
  send = send_few;
  recv = λ s n. (recv_error, s);
  error_code = λ _. 10054;
  zero_return = λ _. true;
}

clogging-send_wire :
    (s : ℕ × Bytes) (bytes : Bytes) (n : ℕ) (s' : ℕ × Bytes)
    → send_few s bytes ≡ (sent n, s')
    → (n ≤ length bytes) × (s'.1 ≡ s.1 ++ take n bytes)
clogging-send_wire (zero, s) bytes n s' e = absurd (cc (ap (λ r. r.0) e))
clogging-send_wire (suc k, s) [] n s' e =
    let none_sent : 0 ≡ n = cc e in
    let stays : (suc k, s) ≡ s' = ap (λ r. r.1) e in
    rw (sym none_sent) (omega arith, ap (λ r. r.1) (sym stays) ∙ sym (append-nil s))
clogging-send_wire (suc k, s) (b ∷ bs) n s' e =
    let one_sent : 1 ≡ n = cc e in
    let grows : (k, s ++ b ∷ []) ≡ s' = ap (λ r. r.1) e in
    rw (sym one_sent) (omega arith, ap (λ r. r.1) (sym grows))

abbrev clogging_delivers : Delivers clogging
clogging_delivers = record { wire = λ s. s.1; send_wire = clogging-send_wire }

clogging-refused_wire :
    (s : ℕ × Bytes) (bytes : Bytes) (s' : ℕ × Bytes)
    → send_few s bytes ≡ (send_error, s')
    → s'.1 ≡ s.1
clogging-refused_wire (zero, s) bytes s' e = ap (λ r. r.1.1) (sym e)
clogging-refused_wire (suc k, s) [] s' e = absurd (cc (ap (λ r. r.0) e))
clogging-refused_wire (suc k, s) (b ∷ bs) s' e = absurd (cc (ap (λ r. r.0) e))

abbrev clogging_refuses : Refuses clogging clogging_delivers
clogging_refuses = record { refused_wire = clogging-refused_wire }

abbrev clogged : Bytes → World (ℕ × Bytes)
clogged s = record { socket = (6, s); last_error = none }

abbrev stopped : World (ℕ × Bytes)
stopped = record {
  socket = (0, 0 ∷ 0 ∷ 0 ∷ 5 ∷ codes "he");
  last_error = some (ssl_write_failed 10054);
}
