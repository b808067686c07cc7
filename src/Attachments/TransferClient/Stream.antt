-- ===== src/Attachments/TransferClient/Stream.antt =====
-- What `TransferClient::stream_encrypt` hands to its sink (transfer_client.cpp).
use mathlib.Core.List.{append_assoc, append-nil}
use cross_language_lan_chatr.Prelude.{
  ℕ, zero, suc, ◌+◌, ◌-◌, ◌≤◌, ◌<◌, ◌≡◌, refl, sym, ap, ◌∙◌, subst, min, Bool, true, false, not,
  ◌&&◌, ◌||◌, none, some, List, [], ◌∷◌, ◌++◌, arith, leb, ◌==◌, ==_iff, length, take, drop, Bytes,
  pos, pos_part, leb_ℤ, ltb_ℤ, take-take, drop-take, length-take, length-drop, take_all, drop_all,
  Bool-cases, Option-cases, inl, inr, ◌⊎◌,
}
use cross_language_lan_chatr.Attachments.Crypto.{ChunkContext, Evp, encrypt}
use cross_language_lan_chatr.Attachments.TransferClient.{
  Device, TransferChunk, sink_rejected, chunk_size, at_index, make_chunk, Streamed, after_read,
  stream_loop, with_default, stream_encrypt,
}

-- What the code relies on: a read takes the next bytes of the file, as many as asked for where the
-- file has them.
pub record Reads (device : Device) : Type 0 where
  pub contents : device.State → Bytes
  pub read_contents :
      (s : device.State) (n : ℕ)
      → ((device.read s n).0 ≡ take n (contents s))
        × (contents (device.read s n).1 ≡ drop n (contents s))

-- A sink that keeps every chunk.
abbrev pub collect : List TransferChunk → TransferChunk → Bool × List TransferChunk
collect k chunk = (true, k ++ chunk ∷ [])

-- What is cut off a list at the shorter of a bound on its length and a size.
cut_at_bound :
    (n size : ℕ) (xs : Bytes)
    → length xs ≤ n
    → (take (min n size) xs ≡ take size xs) × (drop (min n size) xs ≡ drop size xs)
cut_at_bound n size xs h = elim (Bool-cases (leb n size)) [
  | inl le ↦
      let small : n ≤ size = ground arith in
      let at : min n size ≡ n = omega arith in
      rw at (
        take_all n xs h ∙ sym (take_all size xs (omega arith)),
        drop_all n xs h ∙ sym (drop_all size xs (omega arith)),
      )
  | inr gt ↦
      let big : size ≤ n = ground arith in
      let at : min n size ≡ size = omega arith in rw at (refl, refl)
]

module _ (evp : Evp) (sha256_hex : Bytes → Bytes) (key : Bytes) where
  -- The chunks are the encryption of the plaintext cut in pieces, numbered from `i` on.
  abbrev pub Cuts : ChunkContext → ℕ → ℕ → Bytes → List TransferChunk → Type 0
  Cuts c size i plain [] = plain ≡ []
  Cuts c size i plain (chunk ∷ chunks) =
      (0 < length plain)
      × (chunk.index ≡ i)
      × (encrypt evp key (at_index c i) (take size plain) ≡ some chunk.ciphertext)
      × (chunk.cipher_sha256 ≡ sha256_hex chunk.ciphertext)
      × Cuts c size (i + 1) (drop size plain) chunks

  module _ (device : Device) where
    open device use {State, read}

    after_read-done :
        (rest : State → List TransferChunk → Streamed evp sha256_hex device key collect)
        (c : ChunkContext) (i n : ℕ) (k : List TransferChunk) (r : Bytes × State) (s' : State)
        (k' : List TransferChunk)
        → after_read evp sha256_hex device key collect rest c i n k r ≡ (none, s', k')
        → (length r.0 ≡ n)
          × (ct : Bytes) × (encrypt evp key (at_index c i) r.0 ≡ some ct)
          × (rest r.1 (k ++ make_chunk evp sha256_hex device key i ct ∷ []) ≡ (none, s', k'))
    after_read-done rest c i n k (bytes, s) s' k' h = elim (Bool-cases (length bytes == n)) [
      | inr short ↦ absurd (cc (rw short at h))
      | inl full ↦ elim (Option-cases (encrypt evp key (at_index c i) bytes)) [
        | inl refused ↦ absurd (cc (rw (full, refused) at h))
        | inr (ct, sealed) ↦ ((==_iff _ n).0 full, ct, sealed, (rw (full, sealed) at h))
      ]
    ]

    module _ (reads : Reads device) where
      -- The read of a round, in front of a plaintext that the file still holds.
      round_read :
          (s : State) (n m : ℕ)
          → m ≤ n
          → ((read s m).0 ≡ take m (take n (reads.contents s)))
            × (take (n - m) (reads.contents (read s m).1) ≡ drop m (take n (reads.contents s)))
      round_read s n m h =
          let (got, left) = reads.read_contents s m in
          (
            got ∙ sym (take-take n m (reads.contents s) h),
            ap (take (n - m)) left ∙ sym (drop-take m n (reads.contents s) h),
          )

      stream_loop-done :
          (fuel : ℕ) (c : ChunkContext) (i remaining : ℕ) (s : State) (k : List TransferChunk)
          (s' : State) (k' : List TransferChunk)
          → stream_loop evp sha256_hex device key collect fuel c i remaining s k ≡ (none, s', k')
          → (remaining ≤ length (reads.contents s))
            × (chunks : List TransferChunk) × (k' ≡ k ++ chunks)
            × Cuts c chunk_size i (take remaining (reads.contents s)) chunks
      unfolding stream_loop
      stream_loop-done fuel c i zero s k s' k' h =
          (omega arith, [], (cc h) ∙ sym (append-nil k), refl)
      stream_loop-done zero c i (suc n) s k s' k' h = absurd (cc h)
      stream_loop-done (suc fuel) c i (suc n) s k s' k' h =
          let m = min (suc n) chunk_size in
          let (full, ct, sealed, next) =
            after_read-done
              (stream_loop evp sha256_hex device key collect fuel c (i + 1) (suc n - m)) c i m k
              (read s m) s' k' h in
          let (got, left) = round_read s (suc n) m (omega arith) in
          let (enough, chunks, kept, cuts) =
            stream_loop-done fuel c (i + 1) (suc n - m) (read s m).1
              (k ++ make_chunk evp sha256_hex device key i ct ∷ []) s' k' next in
          let plain = take (suc n) (reads.contents s) in
          let (piece, behind) =
            cut_at_bound (suc n) chunk_size plain
              (omega (arith, length-take (suc n) (reads.contents s))) in
          let got_length : length (take m plain) ≡ m = ap length (sym got) ∙ full in
          let short : length (take m plain) ≡ min m (length plain) = length-take m plain in
          let whole : length plain ≡ min (suc n) (length (reads.contents s)) =
            length-take (suc n) (reads.contents s) in
          let left_length : length (reads.contents (read s m).1) ≡ length (reads.contents s) - m =
            ap length (reads.read_contents s m).1 ∙ length-drop m (reads.contents s) in
          (
            omega arith,
            make_chunk evp sha256_hex device key i ct ∷ chunks,
            kept ∙ append_assoc k _ chunks,
            (
              omega arith,
              refl,
              subst (λ p. encrypt evp key (at_index c i) p ≡ some ct) (got ∙ piece) sealed,
              refl,
              subst (λ p. Cuts c chunk_size (i + 1) p chunks) (left ∙ behind) cuts,
            ),
          )

      abbrev defaulted : ChunkContext → ChunkContext
      defaulted c = with_default evp sha256_hex device key collect c

      abbrev guard_input : State → ChunkContext → Bool → Bool
      guard_input s c has_sink =
          not (device.is_open s)
          || not (device.is_readable s)
          || not has_sink
          || ltb_ℤ c.logical_size (pos 0)

      abbrev guard_size : ChunkContext → Bool
      guard_size c = not (
          leb_ℤ (defaulted c).chunk_size (pos chunk_size)
          && leb_ℤ (pos chunk_size) (defaulted c).chunk_size)

      -- A stream that ends without an error has read as many bytes as the logical size says, and
      -- has handed to its sink exactly the encryption of these bytes, cut in pieces of 47 KiB and
      -- numbered from 0 on, each under its own index.
      pub stream_encrypt-Cuts :
          (has_sink : Bool) (s : State) (c : ChunkContext) (s' : State) (k' : List TransferChunk)
          → stream_encrypt evp sha256_hex device key collect has_sink s c [] ≡ (none, s', k')
          → (pos_part c.logical_size ≤ length (reads.contents s))
            × Cuts
                (with_default evp sha256_hex device key collect c)
                chunk_size
                0
                (take (pos_part c.logical_size) (reads.contents s))
                k'
      unfolding stream_encrypt
      stream_encrypt-Cuts has_sink s c s' k' h = elim (Bool-cases (guard_input s c has_sink)) [
        | inl refused ↦ absurd (cc (rw refused at h))
        | inr passed ↦ elim (Bool-cases (guard_size c)) [
          | inl refused ↦ absurd (cc (rw (passed, refused) at h))
          | inr sized ↦
              let (enough, chunks, kept, cuts) =
                stream_loop-done (pos_part c.logical_size) (defaulted c) 0 (pos_part c.logical_size)
                  s [] s' k' (rw (passed, sized) at h) in
              (enough, rw kept cuts)
        ]
      ]

      module _ {K : Type 0} (sink : K → TransferChunk → Bool × K) where
        -- The stream has ended without an error, or because the sink has refused a chunk.
        abbrev pub Ends : Streamed evp sha256_hex device key sink → Type 0
        Ends q =
            ((s : State) × (k : K) × (q ≡ (none, s, k)))
            ⊎ ((s : State) × (k : K) × (q ≡ (some sink_rejected, s, k))
                × (before : K) × (chunk : TransferChunk) × ((sink before chunk).0 ≡ false))
