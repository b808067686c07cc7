-- ===== src/Attachments/TransferState/Terminal.antt =====
-- The statuses that no call leaves (attachment_transfer_state.cpp).
use cross_language_lan_chatr.Prelude.{
  ℕ, ◌≡◌, refl, Bool, true, false, Option, List, [], ◌∷◌, arith, Bytes, ℤ, ap, ◌∙◌,
}
use cross_language_lan_chatr.Prelude.Map.{lookup, nat_eq, bytes_eq}
use cross_language_lan_chatr.Attachments.TransferState.{
  Status, completed, cancelled, failed, TransferState, begin, accept_init, accept_resume,
  accept_chunk_ack, register_chunk_command, accept_found_ack, accept_command_ack,
  record_chunk_failure, cancel, fail, Call, begins, command_acks, step, run,
}

abbrev pub is_terminal : Status → Bool
is_terminal completed = true
is_terminal cancelled = true
is_terminal failed = true
is_terminal _ = false

-- The same outcome: status, sizes, server ids and received chunks.
pub record SameOutcome (s t : TransferState) : Type 0 where
  pub status : t.status ≡ s.status
  pub logical_size : t.logical_size ≡ s.logical_size
  pub chunk_size : t.chunk_size ≡ s.chunk_size
  pub attachment_id : t.attachment_id ≡ s.attachment_id
  pub upload_id : t.upload_id ≡ s.upload_id
  pub received : t.received ≡ s.received

command_ack-SameOutcome :
    (s : TransferState) (c : Bytes) (i : ℤ) (o : Option ℕ)
    → is_terminal s.status ≡ true
    → SameOutcome s (accept_found_ack s c i o).0
unfolding accept_found_ack
command_ack-SameOutcome s c i o h = ground arith

step-SameOutcome :
    (s : TransferState) (c : Call) → is_terminal s.status ≡ true → SameOutcome s (step s c)
unfolding step begin accept_init accept_resume accept_chunk_ack register_chunk_command
    accept_command_ack record_chunk_failure cancel fail
step-SameOutcome s (begins l c) h = ground arith
step-SameOutcome s (command_acks c i) h =
    command_ack-SameOutcome s c i (lookup c s.pending_chunk_commands) h
step-SameOutcome s _ h = ground arith

SameOutcome-trans : {s t u : TransferState} → SameOutcome s t → SameOutcome t u → SameOutcome s u
SameOutcome-trans a b = ground arith

-- Once an upload is completed, cancelled or failed, no sequence of calls changes its status, its
-- sizes, its ids or its received chunks.
pub run-SameOutcome :
    (s : TransferState) (cs : List Call) → is_terminal s.status ≡ true → SameOutcome s (run s cs)
unfolding run
run-SameOutcome s [] h = record {
  status = refl;
  logical_size = refl;
  chunk_size = refl;
  attachment_id = refl;
  upload_id = refl;
  received = refl;
}
run-SameOutcome s (c ∷ cs) h =
    let one = step-SameOutcome s c h in
    SameOutcome-trans one (run-SameOutcome (step s c) cs (ap is_terminal one.status ∙ h))
