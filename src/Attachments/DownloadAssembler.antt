-- ===== src/Attachments/DownloadAssembler.antt =====
-- The assembly of a download: client-cpp/gui/src/attachments/attachment_download_assembler.hpp and
-- .cpp. The files are the parameter `Files`; a path and a reason are what the source writes, the
-- reason as a constructor for its text. A sum of sizes beyond `std::int64_t` is outside the model.
pub mod Discard
pub mod Verified
use cross_language_lan_chatr.Prelude.{
  ℕ, zero, suc, ◌+◌, ◌-◌, ◌*◌, min, Bool, true, false, not, ◌&&◌, ◌||◌, Option, none, some, List,
  [], ◌∷◌, ◌++◌, if◌then◌else◌, ltb, leb, ◌==◌, length, is_empty, Bytes, codes, same, ℤ, pos,
  pos_part, neg_part, ltb_ℤ, leb_ℤ, map,
}
use cross_language_lan_chatr.Attachments.Chunks.{count_chunks}
use cross_language_lan_chatr.Attachments.Crypto.{ChunkContext, Evp, decrypt, tag_size}

-- What is asked of `QFile`. A call returns whether it succeeded, a write how much was written.
pub record Files : Type 1 where
  pub Disk : Type 0
  pub open_truncated : Disk → Bytes → Bool × Disk
  pub resize : Disk → Bytes → ℕ → Bool × Disk
  pub remove : Disk → Bytes → Bool × Disk
  pub exists : Disk → Bytes → Bool
  pub rename : Disk → Bytes → Bytes → Bool × Disk
  pub open_read_write : Disk → Bytes → Bool × Disk
  pub seek : Disk → Bytes → ℕ → Bool × Disk
  pub write : Disk → Bytes → ℕ → Bytes → ℤ × Disk

pub record Assembler : Type 0 where
  pub output_path : Bytes
  pub part_path : Bytes
  pub key : Bytes
  pub context : ChunkContext
  pub next_index : ℕ
  pub complete : Bool

pub data Reason : Type 0 where
  invalid_context cannot_create unexpected_chunk hash_mismatch invalid_chunk_size : Reason
  decryption_failed cannot_write last_marker_mismatch cannot_replace cannot_move : Reason

abbrev pub part_path_for : Bytes → Bytes
part_path_for output_path = output_path ++ codes ".lanchat-part"

-- `QByteArray::toLower`: the ASCII letters.
abbrev pub to_lower_byte : ℕ → ℕ
to_lower_byte b = if leb b'A' b && leb b b'Z' then b + 32 else b

abbrev pub to_lower : Bytes → Bytes
to_lower bytes = map to_lower_byte bytes

module _ (evp : Evp) (sha256_hex : Bytes → Bytes) (files : Files) where
  open files use {
    Disk, open_truncated, resize, remove, exists, rename, open_read_write, seek, write,
  }

  -- A result: the reason of a failure, the assembler and the disk behind the call.
  abbrev pub Result : Type 0
  Result = Option Reason × Assembler × Disk

  -- `discardPart`, which is all that `cancel` and the destructor do.
  unfoldable pub discard_part : Assembler → Disk → Assembler × Disk
  discard_part a d =
      if is_empty a.part_path
      then (a, d)
      else (record a { part_path = [] }, (remove d a.part_path).1)

  abbrev pub cancel : Assembler → Disk → Assembler × Disk
  cancel a d = discard_part a d

  abbrev pub fail : Reason → Assembler → Disk → Result
  fail reason a d = let (a', d') = discard_part a d in (some reason, a', d')

  finish_begin : Bytes → Bytes → ChunkContext → Assembler → Bool × Disk → Result
  finish_begin output_path key c a (false, d) =
      (some cannot_create, a, (remove d (part_path_for output_path)).1)
  finish_begin output_path key c a (true, d) = (
    none,
    record a {
      output_path = output_path;
      part_path = part_path_for output_path;
      key = key;
      context = c;
      next_index = 0;
    },
    d,
  )

  -- `open(WriteOnly | Truncate)` and, if that succeeds, `resize`.
  create : Bytes → ℕ → Bool × Disk → Bool × Disk
  create path size (false, d) = (false, d)
  create path size (true, d) = resize d path size

  abbrev pub begin_discarded : Bytes → Bytes → ChunkContext → Assembler × Disk → Result
  unfolding finish_begin create
  begin_discarded output_path key c (a, d) =
      let cleared = record a { complete = false } in
      if is_empty output_path
        || leb_ℤ c.logical_size (pos 0)
        || leb_ℤ c.chunk_size (pos 0)
        || not (leb_ℤ c.chunk_index (pos 0) && leb_ℤ (pos 0) c.chunk_index)
        || is_empty c.attachment_id
        || is_empty c.room
      then (some invalid_context, cleared, d)
      else finish_begin output_path key c cleared (
          create (part_path_for output_path) (pos_part c.logical_size)
            (open_truncated d (part_path_for output_path)))

  unfoldable pub begin : Bytes → Bytes → ChunkContext → Assembler → Disk → Result
  begin output_path key c a d = begin_discarded output_path key c (discard_part a d)

  -- The second half of `finalize`, on a disk without the old output file.
  abbrev moved : Assembler → Bool × Disk → Result
  moved a (false, d) = fail cannot_move a d
  moved a (true, d) = (none, record a { part_path = []; complete = true }, d)

  abbrev replaced : Assembler → Bool × Disk → Result
  replaced a (false, d) = fail cannot_replace a d
  replaced a (true, d) = moved a (rename d a.part_path a.output_path)

  unfoldable pub finalize : Assembler → Disk → Result
  finalize a d = replaced a (if exists d a.output_path then remove d a.output_path else (true, d))

  -- Behind the write: the last-chunk marker, the next index, the end of the download.
  abbrev pub written : Assembler → Bool → Bool → Disk → Result
  written a expected_last last d =
      let advanced = record a { next_index = a.next_index + 1 } in
      if (if last then not expected_last else expected_last)
      then fail last_marker_mismatch a d
      else if expected_last
      then finalize advanced d
      else (none, advanced, d)

  abbrev pub after_write : Assembler → Bool → Bool → ℕ → ℤ × Disk → Result
  after_write a expected_last last size (count, d) =
      if not (leb_ℤ count (pos size) && leb_ℤ (pos size) count)
      then fail cannot_write a d
      else written a expected_last last d

  abbrev pub after_seek : Assembler → Bool → Bool → ℕ → Bytes → Bool × Disk → Result
  after_seek a expected_last last offset plaintext (false, d) = fail cannot_write a d
  after_seek a expected_last last offset plaintext (true, d) =
      after_write a expected_last last (length plaintext) (write d a.part_path offset plaintext)

  abbrev pub after_open : Assembler → Bool → Bool → ℕ → Bytes → Bool × Disk → Result
  after_open a expected_last last offset plaintext (false, d) = fail cannot_write a d
  after_open a expected_last last offset plaintext (true, d) =
      after_seek a expected_last last offset plaintext (seek d a.part_path offset)

  abbrev pub after_decrypt : Assembler → Disk → Bool → Bool → ℕ → ℕ → Option Bytes → Result
  after_decrypt a d expected_last last offset expected none = fail decryption_failed a d
  after_decrypt a d expected_last last offset expected (some plaintext) =
      if not (length plaintext == expected)
      then fail decryption_failed a d
      else after_open a expected_last last offset plaintext (open_read_write d a.part_path)

  -- The chunk with the next index; `begin` has left sizes above 0.
  abbrev pub accept_next : Assembler → Disk → Bytes → Bool → Result
  accept_next a d ciphertext last =
      let index = a.next_index in
      let size = pos_part a.context.logical_size in
      let chunk = pos_part a.context.chunk_size in
      let expected = min chunk (size - index * chunk) in
      if leb (count_chunks size chunk) index
        || expected == 0
        || not (length ciphertext == expected + tag_size)
      then fail invalid_chunk_size a d
      else after_decrypt a d (index + 1 == count_chunks size chunk) last (index * chunk) expected
          (decrypt evp a.key (record a.context { chunk_index = pos index }) ciphertext)

  unfoldable pub accept_chunk : Assembler → Disk → ℤ → Bytes → Bytes → Bool → Result
  accept_chunk a d index ciphertext cipher_sha256 last =
      if is_empty a.part_path
      then (some unexpected_chunk, a, d)
      else if not (leb_ℤ index (pos a.next_index) && leb_ℤ (pos a.next_index) index)
          || is_empty ciphertext
          || not (length cipher_sha256 == 64)
      then fail unexpected_chunk a d
      else if not (same (sha256_hex ciphertext) (to_lower cipher_sha256))
      then fail hash_mismatch a d
      else accept_next a d ciphertext last
