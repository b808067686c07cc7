-- ===== src/Attachments/TransferState.antt =====
-- The state of one upload: client-cpp/gui/src/attachments/attachment_transfer_state.hpp and .cpp.
-- A method returns the new state with its result. `std::int64_t` arguments are integers; the sizes
-- and indexes that the guards have let into the state are at least 0, so the fields hold naturals.
-- The set is an ascending list, the maps are association lists.
pub mod Received
pub mod Invariant
pub mod Progress
pub mod Retries
pub mod Resume
pub mod Terminal
pub mod Commands
mod Tests
use cross_language_lan_chatr.Prelude.{
  ℕ, suc, ◌+◌, ◌≡◌, Bool, true, false, not, ◌&&◌, ◌||◌, Option, none, some, List, [], ◌∷◌, arith,
  ltb, leb, ◌==◌, if◌then◌else◌, length, is_empty, Bytes, ℤ, pos, negsuc, pos_part, neg_part, ltb_ℤ,
  leb_ℤ,
}
use cross_language_lan_chatr.Prelude.Map.{lookup, insert, erase, nat_eq, bytes_eq}
use cross_language_lan_chatr.Attachments.Chunks.{count_chunks}
use Received.{set_insert, contains, missing_from}

pub data Status : Type 0 where
  idle initializing uploading resuming completed cancelled failed : Status

abbrev pub same_status : Status → Status → Bool
same_status idle idle = true
same_status initializing initializing = true
same_status uploading uploading = true
same_status resuming resuming = true
same_status completed completed = true
same_status cancelled cancelled = true
same_status failed failed = true
same_status _ _ = false

abbrev pub max_chunk_retries : ℕ
max_chunk_retries = 3

pub record TransferState : Type 0 where
  pub status : Status
  pub logical_size : ℕ
  pub chunk_size : ℕ
  pub attachment_id : Bytes
  pub upload_id : Bytes
  pub expires_at : Bytes
  pub received : List ℕ
  pub failed_attempts : List (ℕ × ℕ)
  pub pending_chunk_commands : List (Bytes × ℕ)

-- A state as the constructor leaves it.
abbrev pub fresh : TransferState
fresh = record {
  status = idle;
  logical_size = 0;
  chunk_size = 0;
  attachment_id = [];
  upload_id = [];
  expires_at = [];
  received = [];
  failed_attempts = [];
  pending_chunk_commands = [];
}

pub chunk_count : TransferState → ℕ
chunk_count s = if ltb 0 s.chunk_size then count_chunks s.logical_size s.chunk_size else 0

unfoldable pub valid_index : TransferState → ℤ → Bool
valid_index s i = leb_ℤ (pos 0) i && ltb_ℤ i (pos (chunk_count s))

unfoldable pub is_received : TransferState → ℤ → Bool
is_received s i = leb_ℤ (pos 0) i && contains s.received (pos_part i)

unfoldable pub begin : TransferState → ℤ → ℤ → TransferState × Bool
begin s logical_size chunk_size =
    if leb_ℤ logical_size (pos 0) || leb_ℤ chunk_size (pos 0) || not (same_status s.status idle)
    then (s, false)
    else (
      record s {
        logical_size = pos_part logical_size;
        chunk_size = pos_part chunk_size;
        attachment_id = [];
        upload_id = [];
        expires_at = [];
        received = [];
        failed_attempts = [];
        pending_chunk_commands = [];
        status = initializing;
      },
      true,
    )

abbrev pub equal_ℤ : ℤ → ℤ → Bool
equal_ℤ a b = leb_ℤ a b && leb_ℤ b a

unfoldable pub accept_init : TransferState → Bytes → Bytes → ℤ → Bytes → TransferState × Bool
accept_init s attachment_id upload_id chunk_size expires_at =
    if not (same_status s.status initializing)
      || is_empty attachment_id
      || is_empty upload_id
      || is_empty expires_at
      || not (equal_ℤ chunk_size (pos s.chunk_size))
    then (s, false)
    else (
      record s {
        attachment_id = attachment_id;
        upload_id = upload_id;
        expires_at = expires_at;
        status = uploading;
      },
      true,
    )

-- The loop of `acceptResume`: `none` at the first invalid index.
unfoldable pub validate : TransferState → List ℤ → List ℕ → Option (List ℕ)
unfolding valid_index
validate s [] validated = some validated
validate s (i ∷ is) validated =
    let rest = validate s is (set_insert (pos_part i) validated) in
    if not (valid_index s i) then none else rest

-- The end of `acceptResume`.
abbrev resume_with : TransferState → List ℕ → TransferState
resume_with s validated = record s {
  received = validated;
  failed_attempts = [];
  pending_chunk_commands = [];
  status = if length validated == chunk_count s then completed else uploading;
}

abbrev resume_result : TransferState → Option (List ℕ) → TransferState × Bool
resume_result s none = (s, false)
resume_result s (some validated) = (resume_with s validated, true)

unfoldable pub accept_resume : TransferState → List ℤ → TransferState × Bool
accept_resume s received_indexes =
    if not (same_status s.status uploading) && not (same_status s.status resuming)
    then (s, false)
    else resume_result s (validate s received_indexes [])

-- `acceptChunkAck(chunkIndex)` with the set that the insertion leaves.
abbrev acknowledge : TransferState → ℕ → List ℕ → TransferState
acknowledge s i received = record s {
  received = received;
  failed_attempts = erase i s.failed_attempts;
  status = if length received == chunk_count s then completed else s.status;
}

unfoldable pub accept_chunk_ack : TransferState → ℤ → TransferState × Bool
unfolding valid_index
accept_chunk_ack s i =
    if not (same_status s.status uploading) || not (valid_index s i)
    then (s, false)
    else (acknowledge s (pos_part i) (set_insert (pos_part i) s.received), true)

abbrev is_some {ℓ} : {A : Type ℓ} → Option A → Bool
is_some none = false
is_some (some a) = true

unfoldable pub register_chunk_command : TransferState → Bytes → ℤ → TransferState × Bool
unfolding valid_index is_received
register_chunk_command s command_id i =
    if not (same_status s.status uploading)
      || is_empty command_id
      || not (valid_index s i)
      || is_received s i
    then (s, false)
    else if is_some (lookup command_id s.pending_chunk_commands)
    then (s, false)
    else (
      record s { pending_chunk_commands = insert command_id (pos_part i) s.pending_chunk_commands },
      true,
    )

-- `acceptChunkAck(commandId, chunkIndex)`, on what `find` has given.
unfoldable pub accept_found_ack : TransferState → Bytes → ℤ → Option ℕ → TransferState × Bool
unfolding accept_chunk_ack
accept_found_ack s command_id i none = (s, false)
accept_found_ack s command_id i (some expected) =
    if not (equal_ℤ (pos expected) i)
    then (s, false)
    else accept_chunk_ack
        (record s { pending_chunk_commands = erase command_id s.pending_chunk_commands }) i

unfoldable pub accept_command_ack : TransferState → Bytes → ℤ → TransferState × Bool
unfolding accept_found_ack
accept_command_ack s command_id i =
    accept_found_ack s command_id i (lookup command_id s.pending_chunk_commands)

-- The counter of a map's entry, which starts at 0.
abbrev pub counter : Option ℕ → ℕ
counter none = 0
counter (some n) = n

-- The end of `recordChunkFailure`, with the raised counter.
abbrev fail_attempt : TransferState → ℕ → ℕ → TransferState × Bool
fail_attempt s i attempts = (
  record s {
    failed_attempts = insert i attempts s.failed_attempts;
    status = if ltb max_chunk_retries attempts then failed else s.status;
  },
  leb attempts max_chunk_retries,
)

unfoldable pub record_chunk_failure : TransferState → ℤ → TransferState × Bool
unfolding valid_index is_received
record_chunk_failure s i =
    if not (same_status s.status uploading) || not (valid_index s i) || is_received s i
    then (s, false)
    else fail_attempt s (pos_part i) (counter (lookup (pos_part i) s.failed_attempts) + 1)

unfoldable pub cancel : TransferState → TransferState
cancel s =
    if same_status s.status initializing
      || same_status s.status uploading
      || same_status s.status resuming
    then record s { status = cancelled }
    else s

unfoldable pub fail : TransferState → TransferState
fail s =
    if not (same_status s.status completed) && not (same_status s.status cancelled)
    then record s { status = failed }
    else s

unfoldable pub received_count : TransferState → ℕ
received_count s = length s.received

unfoldable pub missing_indexes : TransferState → List ℕ
missing_indexes s = missing_from (chunk_count s) 0 s.received

-- The calls that the client makes, and the state after each.
pub data Call : Type 0 where
  begins : ℤ → ℤ → Call
  inits : Bytes → Bytes → ℤ → Bytes → Call
  resumes : List ℤ → Call
  acks : ℤ → Call
  registers : Bytes → ℤ → Call
  command_acks : Bytes → ℤ → Call
  failures : ℤ → Call
  cancels fails : Call

pub step : TransferState → Call → TransferState
step s (begins logical chunk) = (begin s logical chunk).0
step s (inits a u c e) = (accept_init s a u c e).0
step s (resumes is) = (accept_resume s is).0
step s (acks i) = (accept_chunk_ack s i).0
step s (registers c i) = (register_chunk_command s c i).0
step s (command_acks c i) = (accept_command_ack s c i).0
step s (failures i) = (record_chunk_failure s i).0
step s cancels = cancel s
step s fails = fail s

pub run : TransferState → List Call → TransferState
run s [] = s
run s (c ∷ cs) = run (step s c) cs
