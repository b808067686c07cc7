-- ===== src/Protocol/Frame.antt =====
-- The bytes of a frame: the length in network byte order and the payload.
use cross_language_lan_chatr.Prelude.{ℕ, ◌^◌, ◌≤◌, ◌<◌, ◌≡◌, refl, ◌++◌, arith, length, Bytes}
use cross_language_lan_chatr.Protocol.{encode_length, decode_length, max_message_size}

abbrev pub frame : Bytes → Bytes
frame payload = encode_length (length payload) ++ payload

-- A payload that `send_frame` and `recv_frame` let through.
abbrev pub IsPayload : Bytes → Type 0
IsPayload payload = (1 ≤ length payload) × (length payload ≤ max_message_size)

pub decode-encode_length : (n : ℕ) → n < 2 ^ 32 → decode_length (encode_length n) ≡ n
unfolding decode_length encode_length
decode-encode_length n h = omega arith

pub length-encode_length : (n : ℕ) → length (encode_length n) ≡ 4
unfolding encode_length
length-encode_length n = refl
