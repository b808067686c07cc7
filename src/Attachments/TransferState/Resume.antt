-- ===== src/Attachments/TransferState/Resume.antt =====
-- `acceptResume`: what the server reports replaces what the client recorded
-- (attachment_transfer_state.cpp).
use cross_language_lan_chatr.Prelude.{
  ℕ, ◌≡◌, refl, Bool, true, false, ◌||◌, none, some, List, [], ◌∷◌, arith, ℤ, pos, negsuc, pos_part,
  all, ap, ◌∙◌,
}
use cross_language_lan_chatr.Prelude.Map.{nat_eq, bytes_eq}
use cross_language_lan_chatr.Attachments.TransferState.Received.{
  set_insert, contains, contains-set_insert,
}
use cross_language_lan_chatr.Attachments.TransferState.{
  uploading, TransferState, valid_index, validate, accept_resume, equal_ℤ,
}

-- The reported indexes contain `n`.
abbrev pub reports : List ℤ → ℕ → Bool
reports [] n = false
reports (i ∷ is) n = equal_ℤ i (pos n) || reports is n

all_tail : (p : ℤ → Bool) (i : ℤ) (is : List ℤ) → all p (i ∷ is) ≡ true → all p is ≡ true
all_tail p i is h = ground arith

member :
    (k n : ℕ) (acc : List ℕ) (later : Bool)
    → (contains (set_insert k acc) n || later)
      ≡ (contains acc n || (equal_ℤ (pos k) (pos n) || later))
member k n acc later = ground (arith, contains-set_insert k n acc)

validate-none :
    (s : TransferState) (is : List ℤ) (acc : List ℕ)
    → all (valid_index s) is ≡ false
    → validate s is acc ≡ none
unfolding validate
validate-none s [] acc h = cc
validate-none s (i ∷ is) acc h = ground (arith, validate-none s is (set_insert (pos_part i) acc))

validate-all :
    (s : TransferState) (is : List ℤ) (acc : List ℕ)
    → all (valid_index s) is ≡ true
    → (xs : List ℕ) × (validate s is acc ≡ some xs)
      × ((n : ℕ) → contains xs n ≡ (contains acc n || reports is n))
unfolding validate
validate-all s [] acc h = (acc, refl, λ n. ground arith)
validate-all s (pos k ∷ is) acc h =
    let (xs, e, m) = validate-all s is (set_insert k acc) (all_tail (valid_index s) (pos k) is h) in
    (xs, ground (arith, h), λ n. m n ∙ member k n acc (reports is n))
validate-all s (negsuc k ∷ is) acc h = absurd (ground (arith, h))

-- A report with valid indexes only is accepted while the upload runs: the received chunks are then
-- exactly the reported ones, and no failure is remembered and no command awaited.
pub accept_resume_exact :
    (s : TransferState) (is : List ℤ)
    → s.status ≡ uploading
    → all (valid_index s) is ≡ true
    → ((accept_resume s is).1 ≡ true)
      × ((n : ℕ) → contains (accept_resume s is).0.received n ≡ reports is n)
      × ((accept_resume s is).0.failed_attempts ≡ [])
      × ((accept_resume s is).0.pending_chunk_commands ≡ [])
unfolding accept_resume contains
accept_resume_exact s is u h =
    let (xs, e, m) = validate-all s is [] h in
    (
      ground arith,
      λ n. resumed s is xs u e n ∙ m n ∙ ap (λ b. b || reports is n) (none_yet n),
      ground arith,
      ground arith,
    )
  where
    resumed :
        (s : TransferState) (is : List ℤ) (xs : List ℕ)
        → s.status ≡ uploading
        → validate s is [] ≡ some xs
        → (n : ℕ) → contains (accept_resume s is).0.received n ≡ contains xs n
    resumed s is xs u e n = ground arith

    none_yet : (n : ℕ) → contains [] n ≡ false
    none_yet n = refl

-- A report with an invalid index among its indexes is refused, and leaves the upload as it was.
pub accept_resume_refused :
    (s : TransferState) (is : List ℤ)
    → all (valid_index s) is ≡ false
    → accept_resume s is ≡ (s, false)
unfolding accept_resume
accept_resume_refused s is h = ground (arith, validate-none s is [] h)
