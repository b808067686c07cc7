-- ===== src/Protocol.antt =====
-- Length-prefixed frames over a socket: client-cpp/include/protocol.hpp and
-- client-cpp/src/protocol.cpp. The socket (Winsock or OpenSSL) is a parameter, `Channel`; the
-- thread's `g_last_error` is a field of the state; the texts of the errors are constructors. The
-- file has each function twice, for `SOCKET` and for `SSL*`: the loops are the same, and `Errors`
-- holds what the two copies report. The loops take fuel; `none` means that it ran out, and it never
-- does. The output buffers are described where a function returns true.
pub mod Frame
pub mod Send
pub mod Partial
pub mod Receive
pub mod RoundTrip
pub mod Trickle
mod Tests
use cross_language_lan_chatr.Prelude.{
  ℕ, zero, suc, ◌+◌, ◌-◌, ◌*◌, ◌/◌, ◌%◌, ◌^◌, min, Bool, true, false, ◌||◌, Option, none, some,
  List, [], ◌∷◌, ◌++◌, if◌then◌else◌, ltb, ◌==◌, length, is_empty, take, drop, Bytes,
}

abbrev pub max_message_size : ℕ
max_message_size = 64 * 1024

abbrev pub int_max : ℕ
int_max = 2 ^ 31 - 1

-- The arguments of `set_error`; the numbers are `WSAGetLastError()`, `ERR_get_error()` or a length.
pub data Error : Type 0 where
  send_failed recv_failed ssl_write_failed ssl_read_failed ssl_peer_closed : ℕ → Error
  peer_closed invalid_outgoing : Error
  invalid_incoming invalid_incoming_tls : ℕ → Error

pub data SendResult : Type 0 where
  send_error : SendResult
  sent : ℕ → SendResult

-- No bytes: the peer has closed the connection.
pub data RecvResult : Type 0 where
  recv_error : RecvResult
  received : Bytes → RecvResult

-- The calls of the socket library.
pub record Channel : Type 1 where
  pub Socket : Type 0
  pub send : Socket → Bytes → SendResult × Socket
  pub recv : Socket → ℕ → RecvResult × Socket
  pub error_code : Socket → ℕ
  -- `SSL_get_error` is `SSL_ERROR_ZERO_RETURN`.
  pub zero_return : Socket → Bool

pub record World (S : Type 0) : Type 0 where
  pub socket : S
  pub last_error : Option Error

-- `htonl` and `ntohl` on the bytes of a `std::uint32_t`.
unfoldable pub encode_length : ℕ → Bytes
encode_length n = (n / 2 ^ 24) % 256 ∷ (n / 2 ^ 16) % 256 ∷ (n / 2 ^ 8) % 256 ∷ n % 256 ∷ []

unfoldable pub decode_length : Bytes → ℕ
decode_length (a ∷ b ∷ c ∷ d ∷ []) = ((a * 256 + b) * 256 + c) * 256 + d
decode_length _ = 0

-- What a copy of the functions reports: `outgoing` is `none` where it sets no error.
pub record Errors (S : Type 0) : Type 0 where
  pub on_send : S → Error
  pub on_recv : S → Error
  pub on_close : S → Error
  pub outgoing : Option Error
  pub incoming : ℕ → Error

module _ (c : Channel) where
  open c use {Socket, error_code, zero_return}

  unfoldable pub tcp_errors : Errors Socket
  tcp_errors = record {
    on_send = λ s. send_failed (error_code s);
    on_recv = λ s. recv_failed (error_code s);
    on_close = λ _. peer_closed;
    outgoing = some invalid_outgoing;
    incoming = invalid_incoming;
  }

  ssl_read_error : Socket → Error
  ssl_read_error s =
      if zero_return s then ssl_peer_closed (error_code s) else ssl_read_failed (error_code s)

  unfoldable pub tls_errors : Errors Socket
  unfolding ssl_read_error
  tls_errors = record {
    on_send = λ s. ssl_write_failed (error_code s);
    on_recv = ssl_read_error;
    on_close = ssl_read_error;
    outgoing = none;
    incoming = invalid_incoming_tls;
  }

module _ (c : Channel) (e : Errors c.Socket) where
  open c use {Socket, send, recv}

  abbrev set_error : World Socket → Socket → Error → World Socket
  set_error w s err = record { socket = s; last_error = some err }

  -- One round of the loop of `send_all`: what `send` has returned, and the loop on what is left.
  after_send :
      (Bytes → World Socket → Option (Bool × World Socket))
      → Bytes
      → World Socket
      → SendResult × Socket
      → Option (Bool × World Socket)
  after_send loop bytes w (send_error, s) = some (false, set_error w s (e.on_send s))
  after_send loop bytes w (sent zero, s) = some (false, set_error w s (e.on_send s))
  after_send loop bytes w (sent (suc n), s) = loop (drop (suc n) bytes) (record w { socket = s })

  -- `bytes` is what is left: `data + total_sent` up to `length`.
  unfoldable pub send_loop : ℕ → Bytes → World Socket → Option (Bool × World Socket)
  unfolding after_send
  send_loop fuel [] w = some (true, w)
  send_loop zero (b ∷ bs) w = none
  send_loop (suc fuel) (b ∷ bs) w =
      after_send (send_loop fuel) (b ∷ bs) w
        (send w.socket (take (min (length (b ∷ bs)) int_max) (b ∷ bs)))

  unfoldable pub send_all : Bytes → World Socket → Option (Bool × World Socket)
  send_all bytes = send_loop (length bytes) bytes

  abbrev note_outgoing : Option Error → World Socket → World Socket
  note_outgoing none w = w
  note_outgoing (some err) w = record w { last_error = some err }

  -- The payload follows if the header was sent.
  abbrev then_send :
      (World Socket → Option (Bool × World Socket))
      → Option (Bool × World Socket)
      → Option (Bool × World Socket)
  then_send next none = none
  then_send next (some (false, w)) = some (false, w)
  then_send next (some (true, w)) = next w

  unfoldable pub send_frame : Bytes → World Socket → Option (Bool × World Socket)
  send_frame payload w =
      if is_empty payload || ltb max_message_size (length payload)
      then some (false, note_outgoing e.outgoing w)
      else then_send (send_all payload) (send_all (encode_length (length payload)) w)

  after_recv :
      (ℕ → Bytes → World Socket → Option (Option Bytes × World Socket))
      → ℕ
      → Bytes
      → World Socket
      → RecvResult × Socket
      → Option (Option Bytes × World Socket)
  after_recv loop n got w (recv_error, s) = some (none, set_error w s (e.on_recv s))
  after_recv loop n got w (received [], s) = some (none, set_error w s (e.on_close s))
  after_recv loop n got w (received (b ∷ bs), s) =
      loop (n - length (b ∷ bs)) (got ++ b ∷ bs) (record w { socket = s })

  -- `n` bytes are still to come, `got` is the part of the buffer that is filled.
  unfoldable pub recv_loop : ℕ → ℕ → Bytes → World Socket → Option (Option Bytes × World Socket)
  unfolding after_recv
  recv_loop fuel zero got w = some (some got, w)
  recv_loop zero (suc n) got w = none
  recv_loop (suc fuel) (suc n) got w =
      after_recv (recv_loop fuel) (suc n) got w (recv w.socket (min (suc n) int_max))

  unfoldable pub recv_all : ℕ → World Socket → Option (Option Bytes × World Socket)
  recv_all n = recv_loop n n []

  -- The check of the length, and the payload.
  abbrev recv_payload : ℕ → World Socket → Option (Option Bytes × World Socket)
  recv_payload n w =
      if n == 0 || ltb max_message_size n
      then some (none, record w { last_error = some (e.incoming n) })
      else recv_all n w

  abbrev after_header : Option (Option Bytes × World Socket) → Option (Option Bytes × World Socket)
  after_header none = none
  after_header (some (none, w)) = some (none, w)
  after_header (some (some header, w)) = recv_payload (decode_length header) w

  unfoldable pub recv_frame : World Socket → Option (Option Bytes × World Socket)
  recv_frame w = after_header (recv_all 4 w)

-- The two copies of the interface.
module _ (c : Channel) where
  unfoldable pub tcp_send_frame : Bytes → World c.Socket → Option (Bool × World c.Socket)
  tcp_send_frame = send_frame c (tcp_errors c)

  unfoldable pub tcp_recv_frame : World c.Socket → Option (Option Bytes × World c.Socket)
  tcp_recv_frame = recv_frame c (tcp_errors c)

  unfoldable pub tls_send_all : Bytes → World c.Socket → Option (Bool × World c.Socket)
  tls_send_all = send_all c (tls_errors c)

  unfoldable pub tls_recv_all : ℕ → World c.Socket → Option (Option Bytes × World c.Socket)
  tls_recv_all = recv_all c (tls_errors c)

  unfoldable pub tls_send_frame : Bytes → World c.Socket → Option (Bool × World c.Socket)
  tls_send_frame = send_frame c (tls_errors c)

  unfoldable pub tls_recv_frame : World c.Socket → Option (Option Bytes × World c.Socket)
  tls_recv_frame = recv_frame c (tls_errors c)
