-- ===== src/Attachments/TransferState/Tests.antt =====
-- Runs of the upload state, and the theorems about it at concrete states.
use cross_language_lan_chatr.Prelude.{
  ℕ, ◌≡◌, ◌<◌, refl, true, false, List, [], ◌∷◌, arith, pos, codes, same, if◌then◌else◌, ltb, not,
}
use cross_language_lan_chatr.Prelude.Map.{lookup, insert, erase}
use cross_language_lan_chatr.Attachments.Chunks.{count_chunks}
use cross_language_lan_chatr.Attachments.TransferState.Received.{contains, set_insert, missing_from}
use cross_language_lan_chatr.Attachments.TransferState.Invariant.{IsValid, run-fresh-IsValid}
use cross_language_lan_chatr.Attachments.TransferState.Progress.{
  contains-missing_indexes, ack_all, ack_all_completes,
}
use cross_language_lan_chatr.Attachments.TransferState.Retries.{fail_times, retry_budget}
use cross_language_lan_chatr.Attachments.TransferState.Resume.{accept_resume_exact}
use cross_language_lan_chatr.Attachments.TransferState.Terminal.{SameOutcome, run-SameOutcome}
use cross_language_lan_chatr.Attachments.TransferState.{
  Status, uploading, completed, failed, TransferState, fresh, begin, accept_init, chunk_count,
  valid_index, is_received, accept_resume, accept_chunk_ack, register_chunk_command,
  record_chunk_failure, missing_indexes, Call, begins, inits, acks, registers, command_acks, fails,
  step, run,
}

-- Ten bytes in chunks of four; the second chunk has arrived, the third was sent as command "c2".
abbrev sending : TransferState
sending = record {
  status = uploading;
  logical_size = 10;
  chunk_size = 4;
  attachment_id = codes "a";
  upload_id = codes "u";
  expires_at = codes "t";
  received = 1 ∷ [];
  failed_attempts = [];
  pending_chunk_commands = (codes "c2", 2) ∷ [];
}

abbrev history : List Call
history =
    begins (pos 10) (pos 4)
    ∷ inits (codes "a") (codes "u") (pos 4) (codes "t")
    ∷ acks (pos 1)
    ∷ registers (codes "c2") (pos 2)
    ∷ []

history_runs : run fresh history ≡ sending
unfolding run step begin accept_init accept_chunk_ack register_chunk_command chunk_count
    count_chunks set_insert lookup insert erase contains same
history_runs = refl

sending-missing : missing_indexes sending ≡ 0 ∷ 2 ∷ []
unfolding missing_indexes chunk_count count_chunks missing_from contains
sending-missing = refl

sending-IsValid : IsValid sending
unfolding chunk_count count_chunks
sending-IsValid = record { within = omega arith; status = (omega arith, tt); pending = omega arith }

run-fresh-IsValid_example : IsValid (run fresh history)
run-fresh-IsValid_example = run-fresh-IsValid history

contains-missing_indexes_example :
    contains (missing_indexes sending) 2
    ≡ (if ltb 2 (chunk_count sending) then not (contains (1 ∷ []) 2) else false)
contains-missing_indexes_example = contains-missing_indexes sending 2

-- The two missing chunks, out of order, with a repetition and an index that is not valid.
abbrev late_acks : List ℕ
late_acks = 2 ∷ 7 ∷ 2 ∷ 0 ∷ []

late_acks-cover :
    (n : ℕ)
    → n < chunk_count sending
    → contains sending.received n ≡ false
    → contains late_acks n ≡ true
unfolding contains chunk_count count_chunks
late_acks-cover n h e = ground arith

ack_all_completes_example : (ack_all sending late_acks).status ≡ completed
ack_all_completes_example = ack_all_completes sending late_acks sending-IsValid refl late_acks-cover

retry_budget_example :
    ((fail_times 3 sending (pos 2)).status ≡ uploading)
    × ((record_chunk_failure (fail_times 3 sending (pos 2)) (pos 2)).1 ≡ false)
    × ((record_chunk_failure (fail_times 3 sending (pos 2)) (pos 2)).0.status ≡ failed)
unfolding valid_index is_received contains chunk_count count_chunks lookup
retry_budget_example = retry_budget 3 sending 2 refl refl refl refl

accept_resume_exact_example : (accept_resume sending (pos 0 ∷ pos 2 ∷ [])).1 ≡ true
unfolding valid_index chunk_count count_chunks
accept_resume_exact_example = (accept_resume_exact sending (pos 0 ∷ pos 2 ∷ []) refl refl).0

abbrev cancelled_upload : TransferState
cancelled_upload = record sending { status = Status.cancelled }

run-SameOutcome_example :
    SameOutcome cancelled_upload (
      run cancelled_upload
        (begins (pos 5) (pos 2) ∷ command_acks (codes "c2") (pos 2) ∷ fails ∷ []))
run-SameOutcome_example =
    run-SameOutcome cancelled_upload
      (begins (pos 5) (pos 2) ∷ command_acks (codes "c2") (pos 2) ∷ fails ∷ []) refl
