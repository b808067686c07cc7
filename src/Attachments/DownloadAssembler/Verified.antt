-- ===== src/Attachments/DownloadAssembler/Verified.antt =====
-- What a chunk that `acceptChunk` takes has passed (attachment_download_assembler.cpp).
use cross_language_lan_chatr.Prelude.{
  ℕ, ◌+◌, ◌-◌, ◌*◌, ◌≡◌, refl, min, Bool, true, false, not, ◌&&◌, ◌||◌, Option, none, some, arith,
  if◌then◌else◌, leb, ◌==◌, ==_iff, length, is_empty, Bytes, same, ℤ, pos, pos_part, leb_ℤ,
  Bool-cases, inl, inr,
}
use cross_language_lan_chatr.Attachments.Chunks.{count_chunks}
use cross_language_lan_chatr.Attachments.Crypto.{Evp, decrypt, tag_size}
use cross_language_lan_chatr.Attachments.DownloadAssembler.{
  Files, Assembler, Reason, unexpected_chunk, hash_mismatch, invalid_chunk_size, decryption_failed,
  cannot_write, Result, fail, written, after_seek, after_open, after_decrypt, accept_next,
  accept_chunk, to_lower,
}

module _ (evp : Evp) (sha256_hex : Bytes → Bytes) (files : Files) where
  open files use {Disk, open_read_write, seek, write}

  -- The checks that the source makes before and after it writes the plaintext of a chunk.
  pub record Verified (a : Assembler) (d : Disk) (index : ℤ) (ciphertext cipher_sha256 : Bytes)
      (last : Bool) : Type 0 where
    pub expected : leb_ℤ index (pos a.next_index) && leb_ℤ (pos a.next_index) index ≡ true
    pub hash : same (sha256_hex ciphertext) (to_lower cipher_sha256) ≡ true
    pub plaintext : Bytes
    pub authentic :
        decrypt evp a.key (record a.context { chunk_index = pos a.next_index }) ciphertext
        ≡ some plaintext
    pub size :
        length plaintext
        ≡ min
            (pos_part a.context.chunk_size)
            (pos_part a.context.logical_size - a.next_index * pos_part a.context.chunk_size)
    pub marker : last ≡ (
        a.next_index + 1
        == count_chunks (pos_part a.context.logical_size) (pos_part a.context.chunk_size))

  module _ (a : Assembler) (d : Disk) where
    passes :
        (b : Bool) (reason : Reason) (r : Result evp sha256_hex files)
        → (if b then fail evp sha256_hex files reason a d else r).0 ≡ none
        → (b ≡ false) × (r.0 ≡ none)
    passes true reason r h = absurd (cc h)
    passes false reason r h = (refl, h)

  module _ (a : Assembler) where
    written-marker :
        (expected last : Bool) (d : Disk)
        → (written evp sha256_hex files a expected last d).0 ≡ none
        → last ≡ expected
    written-marker true true d h = refl
    written-marker true false d h = absurd (cc h)
    written-marker false true d h = absurd (cc h)
    written-marker false false d h = refl

    after_seek-marker :
        (expected last : Bool) (offset : ℕ) (plaintext : Bytes) (p : Bool × Disk)
        → (after_seek evp sha256_hex files a expected last offset plaintext p).0 ≡ none
        → last ≡ expected
    after_seek-marker expected last offset plaintext (false, d) h = absurd (cc h)
    after_seek-marker expected last offset plaintext (true, d) h =
        let (n, d') = write d a.part_path offset plaintext in
        let full = leb_ℤ n (pos (length plaintext)) && leb_ℤ (pos (length plaintext)) n in
        written-marker expected last d'
          (passes a d' (not full) cannot_write (written evp sha256_hex files a expected last d')
            h).1

    after_open-marker :
        (expected last : Bool) (offset : ℕ) (plaintext : Bytes) (p : Bool × Disk)
        → (after_open evp sha256_hex files a expected last offset plaintext p).0 ≡ none
        → last ≡ expected
    after_open-marker expected last offset plaintext (false, d) h = absurd (cc h)
    after_open-marker expected last offset plaintext (true, d) h =
        after_seek-marker expected last offset plaintext (seek d a.part_path offset) h

    after_decrypt-some :
        (d : Disk) (expected_last last : Bool) (offset expected : ℕ) (p : Option Bytes)
        → (after_decrypt evp sha256_hex files a d expected_last last offset expected p).0 ≡ none
        → (plaintext : Bytes) × (p ≡ some plaintext)
          × (length plaintext ≡ expected)
          × (last ≡ expected_last)
    after_decrypt-some d expected_last last offset expected none h = absurd (cc h)
    after_decrypt-some d expected_last last offset expected (some plaintext) h =
        let opened = open_read_write d a.part_path in
        let (whole, rest) =
          passes a d (not (length plaintext == expected)) decryption_failed
            (after_open evp sha256_hex files a expected_last last offset plaintext opened) h in
        (
          plaintext,
          refl,
          (==_iff _ _).0 (ground arith),
          after_open-marker expected_last last offset plaintext opened rest,
        )

    -- A chunk is taken without an error only while a download is active, with the next index, the
    -- stated hash, a ciphertext that decrypts under this index to as many bytes as the index has in
    -- the file, and the last-chunk marker that the chunk count gives.
    pub accept_chunk-Verified :
        (d : Disk) (index : ℤ) (ciphertext cipher_sha256 : Bytes) (last : Bool)
        → (accept_chunk evp sha256_hex files a d index ciphertext cipher_sha256 last).0 ≡ none
        → (is_empty a.part_path ≡ false) × Verified a d index ciphertext cipher_sha256 last
    unfolding accept_chunk
    accept_chunk-Verified d index ciphertext cipher_sha256 last h =
        elim (Bool-cases (is_empty a.part_path)) [
          | inl idle ↦ absurd (cc (rw idle at h))
          | inr active ↦
              let index_ok = leb_ℤ index (pos a.next_index) && leb_ℤ (pos a.next_index) index in
              let size = pos_part a.context.logical_size in
              let chunk = pos_part a.context.chunk_size in
              let expected = min chunk (size - a.next_index * chunk) in
              let plain =
                decrypt evp a.key (record a.context { chunk_index = pos a.next_index })
                  ciphertext in
              let ending =
                after_decrypt evp sha256_hex files a d (a.next_index + 1 == count_chunks size chunk)
                  last (a.next_index * chunk) expected plain in
              let (e1, h1) =
                passes a d (not index_ok || is_empty ciphertext || not (length cipher_sha256 == 64))
                  unexpected_chunk
                  (if not (same (sha256_hex ciphertext) (to_lower cipher_sha256))
                    then fail evp sha256_hex files hash_mismatch a d
                    else accept_next evp sha256_hex files a d ciphertext last)
                  (rw active at h) in
              let (e2, h2) =
                passes a d (not (same (sha256_hex ciphertext) (to_lower cipher_sha256)))
                  hash_mismatch (accept_next evp sha256_hex files a d ciphertext last) h1 in
              let (e3, h3) =
                passes a d
                  (leb (count_chunks size chunk) a.next_index
                    || expected == 0
                    || not (length ciphertext == expected + tag_size))
                  invalid_chunk_size ending h2 in
              let (plaintext, authentic, whole, marker) =
                after_decrypt-some d (a.next_index + 1 == count_chunks size chunk) last
                  (a.next_index * chunk) expected plain h3 in
              (
                active,
                record {
                  expected =
                      not_false index_ok (is_empty ciphertext) (not (length cipher_sha256 == 64))
                        e1;
                  hash = flip _ e2;
                  plaintext = plaintext;
                  authentic = authentic;
                  size = whole;
                  marker = marker;
                },
              )
        ]
      where
        flip : (b : Bool) → not b ≡ false → b ≡ true
        flip true e = refl
        flip false e = absurd (cc e)

        not_false : (b c x : Bool) → (not b || c || x) ≡ false → b ≡ true
        not_false true c x e = refl
        not_false false c x e = absurd (cc e)
