-- ===== src/Attachments/TransferState/Received.antt =====
-- The ordered set of received indexes, `std::set<std::int64_t> received_` of
-- client-cpp/gui/src/attachments/attachment_transfer_state.hpp: ascending, each index once.
use cross_language_lan_chatr.Prelude.{
  ℕ, suc, zero, ◌+◌, ◌≤◌, ◌<◌, ◌≡◌, arith, refl, Bool, false, not, ◌||◌, List, [], ◌∷◌,
  if◌then◌else◌, ltb, ◌==◌, length, inl, inr, Bool-cases,
}

unfoldable pub set_insert : ℕ → List ℕ → List ℕ
set_insert n [] = n ∷ []
set_insert n (x ∷ xs) =
    if ltb n x then n ∷ x ∷ xs else if n == x then x ∷ xs else x ∷ set_insert n xs

unfoldable pub contains : List ℕ → ℕ → Bool
contains [] n = false
contains (x ∷ xs) n = x == n || contains xs n

-- Ascending, from `lo` on and below `hi`.
abbrev pub Within : ℕ → ℕ → List ℕ → Type 0
Within lo hi [] = Unit
Within lo hi (x ∷ xs) = (lo ≤ x) × (x < hi) × Within (suc x) hi xs

pub set_insert-Within :
    (n lo hi : ℕ) (xs : List ℕ) → lo ≤ n → n < hi → Within lo hi xs → Within lo hi (set_insert n xs)
unfolding set_insert
set_insert-Within n lo hi [] h k w = (h, k, tt)
set_insert-Within n lo hi (x ∷ xs) h k w = ground (arith, set_insert-Within n (suc x) hi xs)

pub contains-set_insert :
    (n m : ℕ) (xs : List ℕ) → contains (set_insert n xs) m ≡ (n == m || contains xs m)
unfolding set_insert contains
contains-set_insert n m [] = refl
contains-set_insert n m (x ∷ xs) = ground (arith, contains-set_insert n m xs)

pub contains_below : (n lo hi : ℕ) (xs : List ℕ) → Within lo hi xs → n < lo → contains xs n ≡ false
unfolding contains
contains_below n lo hi [] w h = refl
contains_below n lo hi (x ∷ xs) w h = ground (arith, contains_below n (suc x) hi xs)

pub length-set_insert :
    (n lo hi : ℕ) (xs : List ℕ)
    → Within lo hi xs
    → length (set_insert n xs) ≡ (if contains xs n then length xs else suc (length xs))
unfolding set_insert contains
length-set_insert n lo hi [] w = refl
length-set_insert n lo hi (x ∷ xs) w =
    ground (arith, length-set_insert n (suc x) hi xs w.2, contains_below n (suc x) hi xs w.2)

-- The indexes from `i` on, `rounds` of them, that the set lacks: the loop of `missingIndexes`.
unfoldable pub missing_from : ℕ → ℕ → List ℕ → List ℕ
missing_from zero i xs = []
missing_from (suc rounds) i xs =
    let rest = missing_from rounds (suc i) xs in if not (contains xs i) then i ∷ rest else rest

contains-missing_from_below :
    (rounds i n : ℕ) (xs : List ℕ) → n < i → contains (missing_from rounds i xs) n ≡ false
unfolding missing_from contains
contains-missing_from_below zero i n xs h = refl
contains-missing_from_below (suc rounds) i n xs h =
    ground (arith, contains-missing_from_below rounds (suc i) n xs)

pub contains-missing_from :
    (rounds i n : ℕ) (xs : List ℕ)
    → i ≤ n
    → contains (missing_from rounds i xs) n
      ≡ (if ltb n (i + rounds) then not (contains xs n) else false)
unfolding missing_from contains
contains-missing_from zero i n xs h = ground arith
contains-missing_from (suc rounds) i n xs h = elim (Bool-cases (i == n)) [
  | inl e ↦ ground (arith, contains-missing_from_below rounds (suc i) n xs)
  | inr e ↦ ground (arith, contains-missing_from rounds (suc i) n xs)
]

Within-down : (lo lo' hi : ℕ) (xs : List ℕ) → lo ≤ lo' → Within lo' hi xs → Within lo hi xs
Within-down lo lo' hi [] h w = tt
Within-down lo lo' hi (x ∷ xs) h w = (omega arith, w.1, w.2)

pub missing_from-Within :
    (rounds i hi : ℕ) (xs : List ℕ) → i + rounds ≡ hi → Within i hi (missing_from rounds i xs)
unfolding missing_from
missing_from-Within zero i hi xs e = tt
missing_from-Within (suc rounds) i hi xs e =
    let rest = missing_from-Within rounds (suc i) hi xs (omega arith) in
    elim (Bool-cases (contains xs i)) [
      | inl h ↦ rw h (Within-down i (suc i) hi _ (omega arith) rest)
      | inr h ↦ rw h (omega arith, omega arith, rest)
    ]

-- An index that the loop has passed does not count.
missing_from-cons :
    (rounds i x : ℕ) (xs : List ℕ)
    → x < i
    → missing_from rounds i (x ∷ xs) ≡ missing_from rounds i xs
unfolding missing_from contains
missing_from-cons zero i x xs h = refl
missing_from-cons (suc rounds) i x xs h = ground (arith, missing_from-cons rounds (suc i) x xs)

-- What is missing and what is there make up the whole range.
pub length-missing_from :
    (rounds i hi : ℕ) (xs : List ℕ)
    → Within i hi xs
    → i + rounds ≡ hi
    → length (missing_from rounds i xs) + length xs ≡ rounds
unfolding missing_from contains
length-missing_from zero i hi [] w e = refl
length-missing_from zero i hi (x ∷ xs) w e = absurd (omega arith)
length-missing_from (suc rounds) i hi [] w e =
    ground (arith, length-missing_from rounds (suc i) hi [])
length-missing_from (suc rounds) i hi (x ∷ xs) w e = ground (
  arith,
  contains_below i (suc x) hi xs w.2,
  missing_from-cons rounds (suc i) i xs,
  length-missing_from rounds (suc i) hi xs,
  length-missing_from rounds (suc i) hi (x ∷ xs),
)
