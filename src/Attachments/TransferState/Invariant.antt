-- ===== src/Attachments/TransferState/Invariant.antt =====
-- The invariant of `AttachmentTransferState` (attachment_transfer_state.cpp), kept by every call.
use cross_language_lan_chatr.Prelude.{
  ℕ, ◌+◌, ◌≤◌, ◌<◌, ◌≡◌, subst, refl, Option, none, some, List, [], ◌∷◌, arith, length, Bytes, ℤ,
  pos, pos_part, Bool-cases, Option-cases, inl, inr,
}
use cross_language_lan_chatr.Prelude.Map.{lookup, insert, erase, nat_eq, bytes_eq}
use cross_language_lan_chatr.Attachments.Chunks.{count_chunks_pos}
use cross_language_lan_chatr.Attachments.TransferState.Received.{
  Within, set_insert, set_insert-Within, length-missing_from,
}
use cross_language_lan_chatr.Attachments.TransferState.{
  Status, idle, initializing, uploading, resuming, completed, cancelled, failed, TransferState,
  fresh, chunk_count, begin, accept_init, validate, accept_resume, accept_chunk_ack,
  register_chunk_command, accept_found_ack, accept_command_ack, record_chunk_failure, cancel, fail,
  max_chunk_retries, equal_ℤ, counter, Call, begins, inits, resumes, acks, registers, command_acks,
  failures, cancels, fails, step, run,
}

-- Every registered command names an index below the bound.
abbrev pub AllBelow : ℕ → List (Bytes × ℕ) → Type 0
AllBelow n [] = Unit
AllBelow n ((c, i) ∷ ps) = (i < n) × AllBelow n ps

-- No chunk has failed more often than it may.
abbrev pub RetriesLeft : List (ℕ × ℕ) → Type 0
RetriesLeft [] = Unit
RetriesLeft ((i, attempts) ∷ rs) = (attempts ≤ max_chunk_retries) × RetriesLeft rs

-- What each status says of the received indexes and of the retries.
abbrev pub StatusInv : Status → TransferState → Type 0
StatusInv idle s = s.received ≡ []
StatusInv initializing s = (s.received ≡ []) × (s.failed_attempts ≡ []) × (0 < chunk_count s)
StatusInv uploading s = (length s.received < chunk_count s) × RetriesLeft s.failed_attempts
StatusInv resuming s = ⊥
StatusInv completed s = length s.received ≡ chunk_count s
StatusInv cancelled s = Unit
StatusInv failed s = Unit

pub record IsValid (s : TransferState) : Type 0 where
  -- The received indexes are ascending, each once, and below the chunk count.
  pub within : Within 0 (chunk_count s) s.received
  pub status : StatusInv s.status s
  pub pending : AllBelow (chunk_count s) s.pending_chunk_commands

pub fresh-IsValid : IsValid fresh
fresh-IsValid = record { within = tt; status = refl; pending = tt }

begin-IsValid : (s : TransferState) (l c : ℤ) → IsValid s → IsValid (begin s l c).0
unfolding begin chunk_count
begin-IsValid s l c v = ground (arith, count_chunks_pos (pos_part l) (pos_part c))

accept_init-IsValid :
    (s : TransferState) (a u : Bytes) (c : ℤ) (e : Bytes)
    → IsValid s
    → IsValid (accept_init s a u c e).0
unfolding accept_init chunk_count
accept_init-IsValid s a u c e v = ground arith

insert-AllBelow :
    (n : ℕ) (c : Bytes) (i : ℕ) (ps : List (Bytes × ℕ))
    → i < n
    → AllBelow n ps
    → AllBelow n (insert c i ps)
unfolding insert
insert-AllBelow n c i [] h a = (h, tt)
insert-AllBelow n c i ((d, j) ∷ ps) h a = ground (arith, insert-AllBelow n c i ps)

erase-AllBelow :
    (n : ℕ) (c : Bytes) (ps : List (Bytes × ℕ)) → AllBelow n ps → AllBelow n (erase c ps)
unfolding erase
erase-AllBelow n c [] a = tt
erase-AllBelow n c ((d, j) ∷ ps) a = ground (arith, erase-AllBelow n c ps)

insert-RetriesLeft :
    (i n : ℕ) (rs : List (ℕ × ℕ))
    → n ≤ max_chunk_retries
    → RetriesLeft rs
    → RetriesLeft (insert i n rs)
unfolding insert
insert-RetriesLeft i n [] h a = (h, tt)
insert-RetriesLeft i n ((j, m) ∷ rs) h a = ground (arith, insert-RetriesLeft i n rs)

erase-RetriesLeft : (i : ℕ) (rs : List (ℕ × ℕ)) → RetriesLeft rs → RetriesLeft (erase i rs)
unfolding erase
erase-RetriesLeft i [] a = tt
erase-RetriesLeft i ((j, m) ∷ rs) a = ground (arith, erase-RetriesLeft i rs)

-- A valid set is never larger than the range that it lies in.
pub length-le-count : (n : ℕ) (xs : List ℕ) → Within 0 n xs → length xs ≤ n
length-le-count n xs w = omega (arith, length-missing_from n 0 n xs w (omega arith))

validate-Within :
    (s : TransferState) (is : List ℤ) (acc xs : List ℕ)
    → Within 0 (chunk_count s) acc
    → validate s is acc ≡ some xs
    → Within 0 (chunk_count s) xs
unfolding validate
validate-Within s [] acc xs w e = subst (Within 0 (chunk_count s)) (ground arith) w
validate-Within s (i ∷ is) acc xs w e = ground (
  arith,
  set_insert-Within (pos_part i) 0 (chunk_count s) acc,
  validate-Within s is (set_insert (pos_part i) acc) xs,
)

resume-IsValid : (s : TransferState) (is : List ℤ) → IsValid s → IsValid (accept_resume s is).0
unfolding accept_resume chunk_count
resume-IsValid s is v = elim (Option-cases (validate s is [])) [
  | inl e ↦ ground arith
  | inr (xs, e) ↦
      ground (arith, validate-Within s is [] xs tt e, length-le-count (chunk_count s) xs)
]

pub ack-IsValid : (s : TransferState) (i : ℤ) → IsValid s → IsValid (accept_chunk_ack s i).0
unfolding accept_chunk_ack chunk_count
ack-IsValid s i v = ground (
  arith,
  set_insert-Within (pos_part i) 0 (chunk_count s) s.received,
  length-le-count (chunk_count s) (set_insert (pos_part i) s.received),
  erase-RetriesLeft (pos_part i) s.failed_attempts,
)

register-IsValid :
    (s : TransferState) (c : Bytes) (i : ℤ) → IsValid s → IsValid (register_chunk_command s c i).0
unfolding register_chunk_command chunk_count
register-IsValid s c i v =
    ground (arith, insert-AllBelow (chunk_count s) c (pos_part i) s.pending_chunk_commands)

failure-IsValid : (s : TransferState) (i : ℤ) → IsValid s → IsValid (record_chunk_failure s i).0
unfolding record_chunk_failure chunk_count
failure-IsValid s i v = ground (
  arith,
  insert-RetriesLeft (pos_part i) (counter (lookup (pos_part i) s.failed_attempts) + 1)
      s.failed_attempts,
)

cancel-IsValid : (s : TransferState) → IsValid s → IsValid (cancel s)
unfolding cancel chunk_count
cancel-IsValid s v = ground arith

fail-IsValid : (s : TransferState) → IsValid s → IsValid (fail s)
unfolding fail chunk_count
fail-IsValid s v = ground arith

erase_pending-IsValid :
    (s : TransferState) (c : Bytes)
    → IsValid s
    → IsValid (record s { pending_chunk_commands = erase c s.pending_chunk_commands })
unfolding chunk_count
erase_pending-IsValid s c v =
    ground (arith, erase-AllBelow (chunk_count s) c s.pending_chunk_commands)

command_ack-IsValid :
    (s : TransferState) (c : Bytes) (i : ℤ) (o : Option ℕ)
    → IsValid s
    → IsValid (accept_found_ack s c i o).0
unfolding accept_found_ack
command_ack-IsValid s c i none v = v
command_ack-IsValid s c i (some j) v =
    let erased =
      ack-IsValid (record s { pending_chunk_commands = erase c s.pending_chunk_commands }) i
        (erase_pending-IsValid s c v) in
    elim (Bool-cases (equal_ℤ (pos j) i)) [ inl e ↦ rw e erased | inr e ↦ rw e v ]

pub step-IsValid : (s : TransferState) (c : Call) → IsValid s → IsValid (step s c)
unfolding step accept_command_ack
step-IsValid s (begins l c) v = begin-IsValid s l c v
step-IsValid s (inits a u c e) v = accept_init-IsValid s a u c e v
step-IsValid s (resumes is) v = resume-IsValid s is v
step-IsValid s (acks i) v = ack-IsValid s i v
step-IsValid s (registers c i) v = register-IsValid s c i v
step-IsValid s (command_acks c i) v =
    command_ack-IsValid s c i (lookup c s.pending_chunk_commands) v
step-IsValid s (failures i) v = failure-IsValid s i v
step-IsValid s cancels v = cancel-IsValid s v
step-IsValid s fails v = fail-IsValid s v

pub run-IsValid : (s : TransferState) (cs : List Call) → IsValid s → IsValid (run s cs)
unfolding run
run-IsValid s [] v = v
run-IsValid s (c ∷ cs) v = run-IsValid (step s c) cs (step-IsValid s c v)

-- After any sequence of calls on a new upload the received indexes are ascending, without
-- repetition and below the chunk count; every registered command names an index below it; an
-- upload in progress lacks a chunk and no chunk of it has failed more than three times; a
-- completed one holds every chunk; and the status `Resuming` is never reached.
pub run-fresh-IsValid : (cs : List Call) → IsValid (run fresh cs)
run-fresh-IsValid cs = run-IsValid fresh cs fresh-IsValid
