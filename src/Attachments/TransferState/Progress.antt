-- ===== src/Attachments/TransferState/Progress.antt =====
-- `missingIndexes` and the completion of an upload (attachment_transfer_state.cpp).
use cross_language_lan_chatr.Prelude.{
  ℕ, ◌+◌, ◌<◌, ◌≡◌, subst, refl, true, false, not, ◌||◌, List, [], ◌∷◌, arith, ltb, ◌==◌,
  if◌then◌else◌, length, is_empty, ℤ, pos, inl, inr, ◌⊎◌, ap, ◌∙◌, ==_refl,
}
use cross_language_lan_chatr.Prelude.Map.{nat_eq, bytes_eq}
use cross_language_lan_chatr.Attachments.TransferState.Received.{
  contains, contains-set_insert, length-missing_from, contains-missing_from,
}
use cross_language_lan_chatr.Attachments.TransferState.Invariant.{IsValid, ack-IsValid}
use cross_language_lan_chatr.Attachments.TransferState.{
  uploading, completed, TransferState, chunk_count, same_status, accept_chunk_ack, received_count,
  missing_indexes,
}

zero_add : (n : ℕ) → 0 + n ≡ n
zero_add n = omega arith

-- The missing indexes are exactly the indexes below the chunk count that were not received.
pub contains-missing_indexes :
    (s : TransferState) (n : ℕ)
    → contains (missing_indexes s) n
      ≡ (if ltb n (chunk_count s) then not (contains s.received n) else false)
unfolding missing_indexes
contains-missing_indexes s n =
    contains-missing_from (chunk_count s) 0 n s.received (omega arith)
    ∙ ap (λ k. if ltb n k then not (contains s.received n) else false) (zero_add (chunk_count s))

-- In a valid state each index below the chunk count is either missing or received, once.
pub length-missing_indexes :
    (s : TransferState) → IsValid s → length (missing_indexes s) + received_count s ≡ chunk_count s
unfolding missing_indexes received_count
length-missing_indexes s v =
    length-missing_from (chunk_count s) 0 (chunk_count s) s.received v.within (omega arith)

-- A valid upload that has begun to send is completed exactly when it lacks no index.
pub completed-missing_indexes :
    (s : TransferState)
    → IsValid s
    → (s.status ≡ uploading) ⊎ (s.status ≡ completed)
    → same_status s.status completed ≡ is_empty (missing_indexes s)
unfolding received_count
completed-missing_indexes s v h = ground (arith, length-missing_indexes s v)

nonempty_contains : (xs : List ℕ) → 0 < length xs → (n : ℕ) × (contains xs n ≡ true)
unfolding contains
nonempty_contains [] h = absurd (omega arith)
nonempty_contains (x ∷ xs) h = (x, rw (==_refl x))

-- An upload in progress lacks some chunk.
lacks_chunk :
    (s : TransferState)
    → IsValid s
    → s.status ≡ uploading
    → (n : ℕ) × (n < chunk_count s) × (contains s.received n ≡ false)
unfolding received_count
lacks_chunk s v u =
    let (n, e) =
      nonempty_contains (missing_indexes s) (ground (arith, length-missing_indexes s v)) in
    (n, ground (arith, contains-missing_indexes s n), ground (arith, contains-missing_indexes s n))

ack_cases :
    (s : TransferState) (i : ℕ)
    → s.status ≡ uploading
    → ((accept_chunk_ack s (pos i)).0.status ≡ uploading)
      ⊎ ((accept_chunk_ack s (pos i)).0.status ≡ completed)
unfolding accept_chunk_ack
ack_cases s i u = ground arith

chunk_count-ack : (s : TransferState) (i : ℤ) → chunk_count (accept_chunk_ack s i).0 ≡ chunk_count s
unfolding accept_chunk_ack chunk_count
chunk_count-ack s i = ground arith

contains-ack :
    (s : TransferState) (i n : ℕ)
    → s.status ≡ uploading
    → n < chunk_count s
    → contains (accept_chunk_ack s (pos i)).0.received n ≡ (i == n || contains s.received n)
unfolding accept_chunk_ack
contains-ack s i n u h = ground (arith, contains-set_insert i n s.received)

no_member : (n : ℕ) → contains [] n ≡ false
unfolding contains
no_member n = refl

contains_cons : (i : ℕ) (is : List ℕ) (n : ℕ) → contains (i ∷ is) n ≡ (i == n || contains is n)
unfolding contains
contains_cons i is n = refl

-- The acknowledgements of a list of chunks, one after the other.
pub ack_all : TransferState → List ℕ → TransferState
ack_all s [] = s
ack_all s (i ∷ is) = ack_all (accept_chunk_ack s (pos i)).0 is

ack_all-completed :
    (s : TransferState) (is : List ℕ) → s.status ≡ completed → (ack_all s is).status ≡ completed
unfolding ack_all accept_chunk_ack
ack_all-completed s [] e = e
ack_all-completed s (i ∷ is) e = ack_all-completed (accept_chunk_ack s (pos i)).0 is (stays s i e)
  where
    stays :
        (s : TransferState) (i : ℕ)
        → s.status ≡ completed
        → (accept_chunk_ack s (pos i)).0.status ≡ completed
    stays s i e = ground arith

-- Acknowledging chunks that include every one not yet received, in any order, with repetitions
-- and invalid indexes among them, completes an upload in progress.
pub ack_all_completes :
    (s : TransferState) (is : List ℕ)
    → IsValid s
    → s.status ≡ uploading
    → ((n : ℕ) → n < chunk_count s → contains s.received n ≡ false → contains is n ≡ true)
    → (ack_all s is).status ≡ completed
unfolding ack_all
ack_all_completes s [] v u h =
    let (n, below, absent) = lacks_chunk s v u in absurd (none_in n (h n below absent))
  where
    none_in : (n : ℕ) → contains [] n ≡ true → ⊥
    none_in n e = cc (no_member n)
ack_all_completes s (i ∷ is) v u h = elim (ack_cases s i u) [
  | inl more ↦
      ack_all_completes (accept_chunk_ack s (pos i)).0 is (ack-IsValid s (pos i) v) more
        λ n below absent. rest n (subst (λ k. n < k) (chunk_count-ack s (pos i)) below) absent
  | inr done ↦ ack_all-completed (accept_chunk_ack s (pos i)).0 is done
]
  where
    rest :
        (n : ℕ)
        → n < chunk_count s
        → contains (accept_chunk_ack s (pos i)).0.received n ≡ false
        → contains is n ≡ true
    rest n below absent =
        ground (arith, contains-ack s i n u below, h n below, contains_cons i is n)
