-- ===== src/Attachments/DownloadAssembler/Discard.antt =====
-- How a call of `acceptChunk` can end (attachment_download_assembler.cpp).
use cross_language_lan_chatr.Prelude.{
  ℕ, ◌+◌, ◌-◌, ◌*◌, ◌≡◌, refl, min, Bool, true, false, not, ◌&&◌, ◌||◌, Option, none, some, [],
  if◌then◌else◌, leb, ◌==◌, length, is_empty, Bytes, same, ℤ, pos, pos_part, leb_ℤ, inl, inr, ◌⊎◌,
}
use cross_language_lan_chatr.Attachments.Chunks.{count_chunks}
use cross_language_lan_chatr.Attachments.Crypto.{Evp, decrypt, tag_size}
use cross_language_lan_chatr.Attachments.DownloadAssembler.{
  Files, Assembler, Reason, unexpected_chunk, hash_mismatch, invalid_chunk_size, decryption_failed,
  cannot_write, Result, discard_part, fail, moved, replaced, finalize, written, after_write,
  after_seek, after_open, after_decrypt, accept_chunk, to_lower,
}

module _ (evp : Evp) (sha256_hex : Bytes → Bytes) (files : Files) where
  open files use {Disk, remove, rename}

  abbrev pub Res : Type 0
  Res = Result evp sha256_hex files

  abbrev pub count : Assembler → ℕ
  count a = count_chunks (pos_part a.context.logical_size) (pos_part a.context.chunk_size)

  -- The call has failed: the partial file is removed, the assembler takes no further chunk, and it
  -- is as complete as it was.
  pub record Dropped (a : Assembler) (r : Res) : Type 0 where
    pub reason : Reason
    pub before : Disk
    pub failed : r.0 ≡ some reason
    pub no_part : r.1.part_path ≡ []
    pub complete : r.1.complete ≡ a.complete
    pub removed : r.2 ≡ (remove before a.part_path).1

  -- The call has taken a chunk that is not the last one.
  pub record Advanced (a : Assembler) (r : Res) : Type 0 where
    pub fine : r.0 ≡ none
    pub next : r.1 ≡ record a { next_index = a.next_index + 1 }
    pub not_last : (a.next_index + 1 == count a) ≡ false

  -- The call has taken the last chunk and moved the partial file to its place.
  pub record Finished (a : Assembler) (r : Res) : Type 0 where
    pub before : Disk
    pub fine : r.0 ≡ none
    pub next : r.1 ≡ record a { next_index = a.next_index + 1; part_path = []; complete = true }
    pub last : (a.next_index + 1 == count a) ≡ true
    pub renamed : rename before a.part_path a.output_path ≡ (true, r.2)

  abbrev pub Ended : Assembler → Res → Type 0
  Ended a r = Dropped a r ⊎ Advanced a r ⊎ Finished a r

  module _ (a : Assembler) (active : is_empty a.part_path ≡ false) where
    fail_at-Dropped :
        (n : ℕ) (reason : Reason) (d : Disk)
        → Dropped a (fail evp sha256_hex files reason (record a { next_index = n }) d)
    unfolding discard_part
    fail_at-Dropped n reason d = rw active record {
      reason = reason;
      before = d;
      failed = refl;
      no_part = refl;
      complete = refl;
      removed = refl;
    }

    fail-Dropped : (reason : Reason) (d : Disk) → Dropped a (fail evp sha256_hex files reason a d)
    fail-Dropped reason d = fail_at-Dropped a.next_index reason d

    abbrev advanced : Assembler
    advanced = record a { next_index = a.next_index + 1 }

    moved-Ended :
        (p : Bool × Disk) (before : Disk)
        → rename before a.part_path a.output_path ≡ p
        → (a.next_index + 1 == count a) ≡ true
        → Ended a (moved evp sha256_hex files advanced p)
    moved-Ended (false, d) before e last = inl (fail_at-Dropped _ _ d)
    moved-Ended (true, d) before e last =
        inr (inr record { before = before; fine = refl; next = refl; last = last; renamed = e })

    replaced-Ended :
        (p : Bool × Disk)
        → (a.next_index + 1 == count a) ≡ true
        → Ended a (replaced evp sha256_hex files advanced p)
    replaced-Ended (false, d) last = inl (fail_at-Dropped _ _ d)
    replaced-Ended (true, d) last = moved-Ended _ d refl last

    written-Ended :
        (last : Bool) (d : Disk)
        → Ended a (written evp sha256_hex files a (a.next_index + 1 == count a) last d)
    unfolding finalize
    written-Ended last d = go (a.next_index + 1 == count a) last refl
      where
        go :
            (expected last : Bool)
            → (a.next_index + 1 == count a) ≡ expected
            → Ended a (written evp sha256_hex files a expected last d)
        go true true e = replaced-Ended _ e
        go true false e = inl (fail-Dropped _ d)
        go false true e = inl (fail-Dropped _ d)
        go false false e = inr (inl record { fine = refl; next = refl; not_last = e })

    either : (b : Bool) {r r' : Res} → Ended a r → Ended a r' → Ended a (if b then r else r')
    either true p q = p
    either false p q = q

    after_write-Ended :
        (last : Bool) (size : ℕ) (p : ℤ × Disk)
        → Ended a (after_write evp sha256_hex files a (a.next_index + 1 == count a) last size p)
    after_write-Ended last size (n, d) =
        either (not (leb_ℤ n (pos size) && leb_ℤ (pos size) n)) (inl (fail-Dropped cannot_write d))
          (written-Ended last d)

    after_seek-Ended :
        (last : Bool) (offset : ℕ) (plaintext : Bytes) (p : Bool × Disk)
        → Ended a (
            after_seek evp sha256_hex files a (a.next_index + 1 == count a) last offset plaintext p)
    after_seek-Ended last offset plaintext (false, d) = inl (fail-Dropped _ d)
    after_seek-Ended last offset plaintext (true, d) =
        after_write-Ended last (length plaintext) (files.write d a.part_path offset plaintext)

    after_open-Ended :
        (last : Bool) (offset : ℕ) (plaintext : Bytes) (p : Bool × Disk)
        → Ended a (
            after_open evp sha256_hex files a (a.next_index + 1 == count a) last offset plaintext p)
    after_open-Ended last offset plaintext (false, d) = inl (fail-Dropped _ d)
    after_open-Ended last offset plaintext (true, d) = after_seek-Ended last offset plaintext _

    after_decrypt-Ended :
        (d : Disk) (last : Bool) (offset expected : ℕ) (p : Option Bytes)
        → Ended a (
            after_decrypt evp sha256_hex files a d
              (a.next_index + 1 == count a)
              last
              offset
              expected
              p)
    after_decrypt-Ended d last offset expected none = inl (fail-Dropped _ d)
    after_decrypt-Ended d last offset expected (some plaintext) =
        either (not (length plaintext == expected)) (inl (fail-Dropped decryption_failed d))
          (after_open-Ended last offset plaintext (files.open_read_write d a.part_path))

    -- A chunk that comes while a download is active ends in one of three ways: it is refused, the
    -- partial file is removed and nothing further is taken; it is taken and a chunk is still
    -- missing; or it is the last one of the count, the partial file has been renamed to the output
    -- path and the download is complete.
    pub accept_chunk-Ended :
        (d : Disk) (index : ℤ) (ciphertext cipher_sha256 : Bytes) (last : Bool)
        → Ended a (accept_chunk evp sha256_hex files a d index ciphertext cipher_sha256 last)
    unfolding accept_chunk
    accept_chunk-Ended d index ciphertext cipher_sha256 last =
        let index_ok = leb_ℤ index (pos a.next_index) && leb_ℤ (pos a.next_index) index in
        let size = pos_part a.context.logical_size in
        let chunk = pos_part a.context.chunk_size in
        let expected = min chunk (size - a.next_index * chunk) in
        rw active (
          either (not index_ok || is_empty ciphertext || not (length cipher_sha256 == 64))
            (inl (fail-Dropped unexpected_chunk d))
            (either (not (same (sha256_hex ciphertext) (to_lower cipher_sha256)))
              (inl (fail-Dropped hash_mismatch d))
              (either
                (leb (count a) a.next_index
                  || expected == 0
                  || not (length ciphertext == expected + tag_size))
                (inl (fail-Dropped invalid_chunk_size d))
                (after_decrypt-Ended d last (a.next_index * chunk) expected (
                  decrypt evp a.key (record a.context { chunk_index = pos a.next_index })
                    ciphertext)))))
