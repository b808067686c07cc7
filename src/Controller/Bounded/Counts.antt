-- ===== src/Controller/Bounded/Counts.antt =====
-- How often a conversation is in the cache (client-cpp/gui/src/gui_chat_controller.cpp).
use cross_language_lan_chatr.Prelude.{
  ℕ, suc, ◌+◌, ◌≤◌, ◌<◌, ◌≡◌, refl, Bool, true, false, not, ◌||◌, none, List, [], ◌∷◌, arith,
  if◌then◌else◌, length, All, inl, inr, Bool-cases, is_empty, Bytes, same,
}
use cross_language_lan_chatr.Prelude.Map.{lookup, insert, erase, bytes_eq}

-- How often a conversation is in the cache.
unfoldable pub count : Bytes → List (Bytes × ℕ) → ℕ
count key [] = 0
count key ((k, i) ∷ models) = let rest = count key models in if same k key then suc rest else rest

pub length-erase :
    (key : Bytes) (models : List (Bytes × ℕ))
    → length (erase key models) + count key models ≡ length models
unfolding erase count
length-erase key [] = refl
length-erase key ((k, i) ∷ models) = let rest = length-erase key models in ground arith

pub count-erase :
    (j key : Bytes) (models : List (Bytes × ℕ)) → count j (erase key models) ≤ count j models
unfolding erase count
count-erase j key [] = omega arith
count-erase j key ((k, i) ∷ models) = let rest = count-erase j key models in ground arith

pub length-insert :
    (key : Bytes) (v : ℕ) (models : List (Bytes × ℕ))
    → lookup key models ≡ none
    → length (insert key v models) ≡ suc (length models)
unfolding insert lookup
length-insert key v [] h = refl
length-insert key v ((k, i) ∷ models) h = elim (Bool-cases (same k key)) [
  | inl here ↦ absurd (cc (rw here at h))
  | inr other ↦ let rest = length-insert key v models (rw other at h) in rw (other, rest) refl
]

pub count-insert :
    (j key : Bytes) (v : ℕ) (models : List (Bytes × ℕ))
    → lookup key models ≡ none
    → count j (insert key v models) ≡ count j models + (if same key j then 1 else 0)
unfolding insert lookup count
count-insert j key v [] h = ground arith
count-insert j key v ((k, i) ∷ models) h = elim (Bool-cases (same k key)) [
  | inl here ↦ absurd (cc (rw here at h))
  | inr other ↦
      let rest = count-insert j key v models (rw other at h) in rw (other, rest) (ground arith)
]

pub count-missing :
    (key : Bytes) (models : List (Bytes × ℕ)) → lookup key models ≡ none → count key models ≡ 0
unfolding lookup count
count-missing key [] h = refl
count-missing key ((k, i) ∷ models) h = elim (Bool-cases (same k key)) [
  | inl here ↦ absurd (cc (rw here at h))
  | inr other ↦ rw other (count-missing key models (rw other at h))
]

abbrev pub Named : Bytes × ℕ → Type 0
Named entry = is_empty entry.0 ≡ false

pub Named-erase :
    (key : Bytes) (models : List (Bytes × ℕ)) → All Named models → All Named (erase key models)
unfolding erase
Named-erase key [] h = tt
Named-erase key ((k, i) ∷ models) (first, rest) = elim (Bool-cases (same k key)) [
  | inl here ↦ rw here (Named-erase key models rest)
  | inr other ↦ rw other (first, Named-erase key models rest)
]

pub Named-insert :
    (key : Bytes) (v : ℕ) (models : List (Bytes × ℕ))
    → is_empty key ≡ false
    → All Named models
    → All Named (insert key v models)
unfolding insert
Named-insert key v [] e h = (e, tt)
Named-insert key v ((k, i) ∷ models) e (first, rest) = elim (Bool-cases (same k key)) [
  | inl here ↦ rw here (e, rest)
  | inr other ↦ rw other (first, Named-insert key v models e rest)
]

-- Whether a conversation may make room: it is neither the open one nor the one to keep.
abbrev pub spare : Bytes → Bytes → List (Bytes × ℕ) → Bool
spare active kept [] = false
spare active kept ((k, i) ∷ models) = not (same k active || same k kept) || spare active kept models

pub spare-count :
    (active kept : Bytes) (models : List (Bytes × ℕ))
    → count active models + count kept models < length models
    → spare active kept models ≡ true
unfolding count
spare-count active kept [] h = absurd (omega arith)
spare-count active kept ((k, i) ∷ models) h =
    let rest = spare-count active kept models in
    elim (Bool-cases (same k active)) [
      | inl first ↦ rw first (rest (smaller true (same k kept) refl (rw first at h)))
      | inr other ↦ elim (Bool-cases (same k kept)) [
        | inl second ↦ rw (other, second) (rest (smaller false true refl (rw (other, second) at h)))
        | inr neither ↦ rw (other, neither) refl
      ]
    ]
  where
    smaller :
        (a b : Bool)
        → a || b ≡ true
        → (if a then suc (count active models) else count active models)
            + (if b then suc (count kept models) else count kept models)
          < suc (length models)
        → count active models + count kept models < length models
    smaller true true e h = omega arith
    smaller true false e h = omega arith
    smaller false true e h = omega arith
    smaller false false e h = absurd (cc e)
