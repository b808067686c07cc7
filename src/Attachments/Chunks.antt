-- ===== src/Attachments/Chunks.antt =====
-- The limits of client-cpp/include/attachment_limits.hpp, and how many chunks a file takes: the
-- expression `(size + chunk - 1) / chunk` of the upload state, the upload and the download.
use native.Mathlib.Nat.{le-div_iff_mul-le, lt-div-mul-add}
use cross_language_lan_chatr.Prelude.{ℕ, suc, ◌+◌, ◌-◌, ◌*◌, ◌/◌, ◌^◌, ◌≤◌, ◌<◌, ◌≡◌, arith, refl}

abbrev pub max_logical_bytes : ℕ
max_logical_bytes = 5 * 1024 * 1024 * 1024

abbrev pub plaintext_chunk_bytes : ℕ
plaintext_chunk_bytes = 47 * 1024

abbrev pub max_chunk_count : ℕ
max_chunk_count = (max_logical_bytes + plaintext_chunk_bytes - 1) / plaintext_chunk_bytes

unfoldable pub count_chunks : ℕ → ℕ → ℕ
count_chunks size chunk = (size + chunk - 1) / chunk

module _ (size chunk : ℕ) (positive : 0 < chunk) where
  -- A chunk starts inside the file exactly if its index is below the count.
  pub start_inside : (i : ℕ) → i < count_chunks size chunk → i * chunk < size
  unfolding count_chunks
  start_inside i h =
      omega (arith, (le-div_iff_mul-le {x = suc i} {y = size + chunk - 1} positive).0 h)

  pub inside_start : (i : ℕ) → i * chunk < size → i < count_chunks size chunk
  unfolding count_chunks
  inside_start i h = (le-div_iff_mul-le {x = suc i} {y = size + chunk - 1} positive).1 (omega arith)

  -- The chunks together hold the whole file.
  pub covered : size ≤ count_chunks size chunk * chunk
  unfolding count_chunks
  covered = grind (arith, lt-div-mul-add {a = size + chunk - 1} positive)

-- The last chunk of a limit-sized file is the last index that the bridge lets through.
max_chunk_count_value : max_chunk_count ≡ 111551
max_chunk_count_value = refl

pub count_chunks_pos : (size chunk : ℕ) → 0 < size → 0 < chunk → 0 < count_chunks size chunk
count_chunks_pos size chunk s c = inside_start size chunk c 0 (omega arith)

-- A file within the limit, cut in the client's chunks, has no more chunks than the bridge accepts
-- indexes for, and counting them does not leave the range of `std::int64_t`.
pub count_chunks_bounds :
    (size : ℕ)
    → size ≤ max_logical_bytes
    → (count_chunks size plaintext_chunk_bytes ≤ max_chunk_count)
      × (size + plaintext_chunk_bytes < 2 ^ 63)
unfolding count_chunks
count_chunks_bounds size h = omega arith
