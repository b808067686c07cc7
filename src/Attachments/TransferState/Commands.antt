-- ===== src/Attachments/TransferState/Commands.antt =====
-- Acknowledgements by command id: `registerChunkCommand` and `acceptChunkAck(commandId, …)`
-- (attachment_transfer_state.cpp).
use cross_language_lan_chatr.Prelude.{
  ℕ, ◌≡◌, refl, true, false, Option, none, some, arith, Bytes, ℤ, pos, negsuc, ap, ◌∙◌,
}
use cross_language_lan_chatr.Prelude.Map.{lookup, erase, nat_eq, bytes_eq}
use cross_language_lan_chatr.Attachments.TransferState.Received.{contains, contains-set_insert}
use cross_language_lan_chatr.Attachments.TransferState.{
  uploading, TransferState, accept_found_ack, accept_command_ack,
}
use cross_language_lan_chatr.Prelude.Map.{lookup-erase}
use cross_language_lan_chatr.Prelude.{same_refl}

-- What an acknowledgement that is accepted has found.
found_ack :
    (s : TransferState) (c : Bytes) (i : ℤ) (o : Option ℕ)
    → (accept_found_ack s c i o).1 ≡ true
    → (n : ℕ) × (o ≡ some n)
      × (i ≡ pos n)
      × (s.status ≡ uploading)
      × (contains (accept_found_ack s c i o).0.received n ≡ true)
      × ((accept_found_ack s c i o).0.pending_chunk_commands ≡ erase c s.pending_chunk_commands)
unfolding accept_found_ack
found_ack s c i none h = cc
found_ack s c (negsuc k) (some n) h = absurd (ground arith)
found_ack s c (pos k) (some n) h = (
  n,
  refl,
  ground arith,
  ground arith,
  ground (arith, contains-set_insert k n s.received),
  ground arith,
)

-- An acknowledgement by command id is accepted only while the upload runs and only for the chunk
-- that the command was registered for; that chunk is then received, and the same command id is
-- refused for every chunk from then on, with nothing changed.
pub accept_command_ack_once :
    (s : TransferState) (c : Bytes) (i j : ℤ)
    → (accept_command_ack s c i).1 ≡ true
    → (n : ℕ) × (lookup c s.pending_chunk_commands ≡ some n)
      × (i ≡ pos n)
      × (s.status ≡ uploading)
      × (contains (accept_command_ack s c i).0.received n ≡ true)
      × (accept_command_ack (accept_command_ack s c i).0 c j
          ≡ ((accept_command_ack s c i).0, false))
unfolding accept_command_ack
accept_command_ack_once s c i j h =
    let (n, found, e, u, r, p) = found_ack s c i (lookup c s.pending_chunk_commands) h in
    (
      n,
      found,
      e,
      u,
      r,
      again _ c j
          (ap (lookup c) p ∙ lookup-erase c c s.pending_chunk_commands ∙ (rw (same_refl c))),
    )
  where
    again :
        (t : TransferState) (c : Bytes) (j : ℤ)
        → lookup c t.pending_chunk_commands ≡ none
        → accept_command_ack t c j ≡ (t, false)
    again t c j e = ground arith
