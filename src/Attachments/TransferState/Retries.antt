-- ===== src/Attachments/TransferState/Retries.antt =====
-- The retry budget of a chunk: `recordChunkFailure` (attachment_transfer_state.cpp).
use cross_language_lan_chatr.Prelude.{
  ℕ, zero, suc, ◌+◌, ◌<◌, ◌≡◌, true, false, arith, ℤ, pos, ==_refl,
}
use cross_language_lan_chatr.Prelude.Map.{lookup, nat_eq, bytes_eq, lookup-insert}
use cross_language_lan_chatr.Attachments.TransferState.{
  uploading, failed, TransferState, chunk_count, valid_index, is_received, record_chunk_failure,
  max_chunk_retries, counter,
}

-- The failures of one chunk, one after the other.
pub fail_times : ℕ → TransferState → ℤ → TransferState
fail_times zero s i = s
fail_times (suc n) s i = fail_times n (record_chunk_failure s i).0 i

-- The failure of a chunk that may still be retried.
allowed_failure :
    (s : TransferState) (i : ℕ)
    → s.status ≡ uploading
    → valid_index s (pos i) ≡ true
    → is_received s (pos i) ≡ false
    → counter (lookup i s.failed_attempts) < 3
    → ((record_chunk_failure s (pos i)).0.status ≡ uploading)
      × (valid_index (record_chunk_failure s (pos i)).0 (pos i) ≡ true)
      × (is_received (record_chunk_failure s (pos i)).0 (pos i) ≡ false)
      × (counter (lookup i (record_chunk_failure s (pos i)).0.failed_attempts)
          ≡ counter (lookup i s.failed_attempts) + 1)
unfolding record_chunk_failure chunk_count
allowed_failure s i u v r c = ground (
  arith,
  lookup-insert i i (counter (lookup i s.failed_attempts) + 1) s.failed_attempts,
  ==_refl i,
)

-- The failure of a chunk that has used its retries.
last_failure :
    (s : TransferState) (i : ℕ)
    → s.status ≡ uploading
    → valid_index s (pos i) ≡ true
    → is_received s (pos i) ≡ false
    → counter (lookup i s.failed_attempts) ≡ 3
    → (s.status ≡ uploading)
      × ((record_chunk_failure s (pos i)).1 ≡ false)
      × ((record_chunk_failure s (pos i)).0.status ≡ failed)
unfolding record_chunk_failure
last_failure s i u v r c = ground arith

-- A chunk in progress that has failed `k` times may fail `n` times more, where `k + n` is the limit
-- of 3; the upload then still runs, and the next failure is refused and fails the whole upload.
pub retry_budget :
    (n : ℕ) (s : TransferState) (i : ℕ)
    → s.status ≡ uploading
    → valid_index s (pos i) ≡ true
    → is_received s (pos i) ≡ false
    → counter (lookup i s.failed_attempts) + n ≡ max_chunk_retries
    → ((fail_times n s (pos i)).status ≡ uploading)
      × ((record_chunk_failure (fail_times n s (pos i)) (pos i)).1 ≡ false)
      × ((record_chunk_failure (fail_times n s (pos i)) (pos i)).0.status ≡ failed)
unfolding fail_times
retry_budget zero s i u v r c = last_failure s i u v r (omega arith)
retry_budget (suc n) s i u v r c =
    let (u', v', r', c') = allowed_failure s i u v r (omega arith) in
    retry_budget n (record_chunk_failure s (pos i)).0 i u' v' r' (omega arith)
