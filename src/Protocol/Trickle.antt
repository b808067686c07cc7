-- ===== src/Protocol/Trickle.antt =====
-- A connection that moves one byte at a time, for the tests of client-cpp/src/protocol.cpp and
-- client-cpp/src/message.cpp.
use mathlib.Core.List.{append-nil}
use cross_language_lan_chatr.Prelude.{
  ℕ, zero, suc, ◌≤◌, ◌<◌, ◌≡◌, refl, true, none, [], ◌∷◌, ◌++◌, arith, length, take, Bytes,
}
use cross_language_lan_chatr.Protocol.Send.{Delivers}
use cross_language_lan_chatr.Protocol.Receive.Loop.{Streams, Flows}
use cross_language_lan_chatr.Protocol.{
  Channel, World, Errors, SendResult, sent, RecvResult, received, tls_errors,
}

-- The socket is the stream of bytes in flight; each call moves one of them.
abbrev send_one : Bytes → Bytes → SendResult × Bytes
send_one s [] = (sent 0, s)
send_one s (b ∷ bs) = (sent 1, s ++ b ∷ [])

abbrev recv_one : Bytes → ℕ → RecvResult × Bytes
recv_one [] n = (received [], [])
recv_one (b ∷ bs) zero = (received [], b ∷ bs)
recv_one (b ∷ bs) (suc n) = (received (b ∷ []), bs)

abbrev pub trickle : Channel
trickle = record {
  Socket = Bytes;
  send = send_one;
  recv = recv_one;
  error_code = λ _. 10054;
  zero_return = λ _. true;
}

pub trickle-send_wire :
    (s bytes : Bytes) (n : ℕ) (s' : Bytes)
    → send_one s bytes ≡ (sent n, s')
    → (n ≤ length bytes) × (s' ≡ s ++ take n bytes)
trickle-send_wire s [] n s' e = ground (arith, append-nil s)
trickle-send_wire s (b ∷ bs) n s' e = ground arith

abbrev pub trickle_delivers : Delivers trickle
trickle_delivers = record { wire = λ s. s; send_wire = trickle-send_wire }

pub trickle-recv_incoming :
    (s : Bytes) (n : ℕ) (bytes s' : Bytes)
    → recv_one s n ≡ (received bytes, s')
    → (length bytes ≤ n) × (s ≡ bytes ++ s')
trickle-recv_incoming [] n bytes s' e = ground arith
trickle-recv_incoming (b ∷ bs) zero bytes s' e = ground arith
trickle-recv_incoming (b ∷ bs) (suc n) bytes s' e = ground arith

abbrev pub trickle_streams : Streams trickle
trickle_streams = record { incoming = λ s. s; recv_incoming = trickle-recv_incoming }

pub trickle-recv_some :
    (s : Bytes) (n : ℕ)
    → 0 < n
    → 0 < length s
    → (b : ℕ) × (bs s' : Bytes) × (recv_one s n ≡ (received (b ∷ bs), s'))
trickle-recv_some [] n h k = absurd (omega arith)
trickle-recv_some (x ∷ xs) zero h k = absurd (omega arith)
trickle-recv_some (x ∷ xs) (suc n) h k = (x, [], xs, refl)

abbrev pub trickle_flows : Flows trickle trickle_streams
trickle_flows = record { recv_some = trickle-recv_some }

abbrev pub ends : Errors Bytes
ends = tls_errors trickle

abbrev pub start : World Bytes
start = record { socket = []; last_error = none }

abbrev pub holding : Bytes → World Bytes
holding s = record { socket = s; last_error = none }
