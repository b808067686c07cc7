-- ===== src/Attachments/TransferClient.antt =====
-- The encryption of a file chunk by chunk: client-cpp/gui/src/attachments/transfer_client.hpp and
-- .cpp. The Qt device is the parameter `Device`, SHA-256 in hexadecimal digits a function, the sink
-- a function with a state of its own; a reason is the message that goes to `*error`. The loop of
-- `stream_encrypt` takes fuel for each byte that is left; `out_of_fuel` is never the outcome.
pub mod Stream
use cross_language_lan_chatr.Prelude.{
  ℕ, zero, suc, ◌+◌, ◌-◌, ◌*◌, ◌%◌, ◌^◌, min, Bool, true, false, not, ◌&&◌, ◌||◌, Option, none,
  some, List, [], ◌∷◌, ◌++◌, if◌then◌else◌, ltb, leb, ◌==◌, length, is_empty, Bytes, ℤ, pos, negsuc,
  pos_part, neg_part, ltb_ℤ, leb_ℤ,
}
use cross_language_lan_chatr.Attachments.Chunks.{plaintext_chunk_bytes, count_chunks}
use cross_language_lan_chatr.Attachments.Crypto.{ChunkContext, Evp, encrypt}

-- `QIODevice`: what is asked of an open input.
pub record Device : Type 1 where
  pub State : Type 0
  pub is_open : State → Bool
  pub is_readable : State → Bool
  pub read : State → ℕ → Bytes × State

pub record TransferChunk : Type 0 where
  pub index : ℕ
  pub ciphertext : Bytes
  pub cipher_sha256 : Bytes

pub data Reason : Type 0 where
  invalid_context unexpected_end encryption_failed : Reason
  invalid_input unsupported_chunk_size ended_early sink_rejected out_of_fuel cannot_open : Reason

pub data Outcome {ℓ} (A : Type ℓ) : Type ℓ where
  done : A → Outcome A
  failed : Reason → Outcome A

abbrev pub chunk_size : ℕ
chunk_size = plaintext_chunk_bytes

abbrev pub at_index : ChunkContext → ℕ → ChunkContext
at_index c i = record c { chunk_index = pos i }

module _ (evp : Evp) (sha256_hex : Bytes → Bytes) (device : Device) (key : Bytes) where
  open device use {State, is_open, is_readable, read}

  abbrev pub make_chunk : ℕ → Bytes → TransferChunk
  make_chunk i ciphertext = record {
    index = i;
    ciphertext = ciphertext;
    cipher_sha256 = sha256_hex ciphertext;
  }

  -- The chunk, whether it is the last one, and the input behind it. No chunk and `true` is the end
  -- of the file.
  abbrev NextChunk : Type 0
  NextChunk = Outcome (Option TransferChunk × Bool) × State

  -- The end of `encrypt_next_chunk`: what `encrypt` has given.
  next_encrypted : ChunkContext → State → Option Bytes → NextChunk
  next_encrypted c s none = (failed encryption_failed, s)
  next_encrypted c s (some ciphertext) = (
    done (
      some (make_chunk (pos_part c.chunk_index) ciphertext),
      leb (count_chunks (pos_part c.logical_size) (pos_part c.chunk_size))
          (pos_part c.chunk_index + 1),
    ),
    s,
  )

  next_read : ChunkContext → ℕ → Bytes × State → NextChunk
  unfolding next_encrypted
  next_read c read_size (bytes, s) =
      if not (length bytes == read_size)
      then (failed unexpected_end, s)
      else next_encrypted c s (encrypt evp key c bytes)

  -- The guard has left sizes above 0 and an index of at least 0. The read size is an `int`, and a
  -- read of a negative size returns no bytes, fewer than it was asked for.
  unfoldable pub encrypt_next_chunk : State → ChunkContext → NextChunk
  unfolding next_read
  encrypt_next_chunk s c =
      let remaining = pos_part c.logical_size - pos_part c.chunk_index * pos_part c.chunk_size in
      if not (is_open s)
        || not (is_readable s)
        || leb_ℤ c.logical_size (pos 0)
        || leb_ℤ c.chunk_size (pos 0)
        || ltb_ℤ c.chunk_index (pos 0)
      then (failed invalid_context, s)
      else if remaining == 0
      then (done (none, true), s)
      else if leb (2 ^ 31) (min (pos_part c.chunk_size) remaining % 2 ^ 32)
      then (failed unexpected_end, s)
      else next_read c (min (pos_part c.chunk_size) remaining % 2 ^ 32)
          (read s (min (pos_part c.chunk_size) remaining % 2 ^ 32))

  module _ {K : Type 0} (sink : K → TransferChunk → Bool × K) where
    -- The result of the stream, with the input and the sink as it leaves them.
    abbrev pub Streamed : Type 0
    Streamed = Option Reason × State × K

    abbrev after_sink : (K → Streamed) → State → Bool × K → Streamed
    after_sink rest s (false, k) = (some sink_rejected, s, k)
    after_sink rest s (true, k) = rest k

    abbrev after_encrypt : (K → Streamed) → State → K → ℕ → Option Bytes → Streamed
    after_encrypt rest s k index none = (some encryption_failed, s, k)
    after_encrypt rest s k index (some encrypted) =
        after_sink rest s (sink k (make_chunk index encrypted))

    -- One round of the loop, on what `read` has returned.
    abbrev after_read : (State → K → Streamed) → ChunkContext → ℕ → ℕ → K → Bytes × State → Streamed
    after_read rest c index requested k (bytes, s) =
        if not (length bytes == requested)
        then (some ended_early, s, k)
        else after_encrypt (rest s) s k index (encrypt evp key (at_index c index) bytes)

    unfoldable pub stream_loop : ℕ → ChunkContext → ℕ → ℕ → State → K → Streamed
    stream_loop fuel c index zero s k = (none, s, k)
    stream_loop zero c index (suc remaining) s k = (some out_of_fuel, s, k)
    stream_loop (suc fuel) c index (suc remaining) s k =
        after_read (stream_loop fuel c (index + 1) (suc remaining - min (suc remaining) chunk_size))
          c index (min (suc remaining) chunk_size) k (read s (min (suc remaining) chunk_size))

    -- A chunk size of 0 stands for the client's own.
    abbrev pub with_default : ChunkContext → ChunkContext
    with_default c =
        if leb_ℤ c.chunk_size (pos 0) && leb_ℤ (pos 0) c.chunk_size
        then record c { chunk_size = pos chunk_size }
        else c

    -- `has_sink`: the sink is not an empty `std::function`.
    unfoldable pub stream_encrypt : Bool → State → ChunkContext → K → Streamed
    stream_encrypt has_sink s c k =
        if not (is_open s) || not (is_readable s) || not has_sink || ltb_ℤ c.logical_size (pos 0)
        then (some invalid_input, s, k)
        else if not (
            leb_ℤ (with_default c).chunk_size (pos chunk_size)
            && leb_ℤ (pos chunk_size) (with_default c).chunk_size)
        then (some unsupported_chunk_size, s, k)
        else stream_loop (pos_part c.logical_size) (with_default c) 0 (pos_part c.logical_size) s k

    -- `opened`: the input, if the file at the path could be opened.
    unfoldable pub stream_encrypt_file : Bool → Option State → ChunkContext → K → Option Reason × K
    stream_encrypt_file has_sink none c k = (some cannot_open, k)
    stream_encrypt_file has_sink (some s) c k =
        let (reason, s', k') = stream_encrypt has_sink s c k in (reason, k')
