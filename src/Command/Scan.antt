-- ===== src/Command/Scan.antt =====
-- The helpers of client-cpp/src/command.cpp that walk over the input.
use cross_language_lan_chatr.Prelude.{
  ℕ, suc, ◌<◌, length-drop, ◌+◌, ◌-◌, ◌≡◌, refl, ap, Bool, true, false, not, ◌&&◌, ◌||◌, Option,
  none, some, [], ◌∷◌, ◌++◌, arith, ltb, leb, ◌==◌, Bool-cases, inl, inr, if◌then◌else◌, length,
  is_empty, drop, all, Bytes,
}

-- `std::isspace` in the "C" locale.
unfoldable pub is_space : ℕ → Bool
is_space c = c == b' ' || leb 9 c && leb c 13

-- The separators " \t\r\n" of `find_first_of`.
unfoldable pub is_blank : ℕ → Bool
is_blank c = c == b' ' || c == b'\t' || c == b'\r' || c == b'\n'

-- `std::isalnum` in the "C" locale.
unfoldable pub is_ascii_alphanumeric : ℕ → Bool
is_ascii_alphanumeric c =
    leb b'0' c && leb c b'9' || leb b'A' c && leb c b'Z' || leb b'a' c && leb c b'z'

unfoldable pub is_valid_code : Bytes → Bool
unfolding is_ascii_alphanumeric
is_valid_code code = not (is_empty code) && all is_ascii_alphanumeric code

abbrev pub max_room_name_length : ℕ
max_room_name_length = 32

unfoldable pub is_valid_room_name : Bytes → Bool
unfolding is_ascii_alphanumeric
is_valid_room_name name =
    if is_empty name || ltb max_room_name_length (length name)
    then false
    else all (λ c. is_ascii_alphanumeric c || c == b'_') name

-- The loop of `skip_spaces`, on the bytes from `position` on.
unfoldable pub skip_from : Bytes → ℕ → ℕ
skip_from [] position = position
skip_from (c ∷ cs) position =
    let rest = skip_from cs (suc position) in if is_space c then rest else position

unfoldable pub skip_spaces : Bytes → ℕ → ℕ
unfolding skip_from
skip_spaces input position = skip_from (drop position input) position

-- `find` and `find_first_of`: the first position from `position` on whose byte passes the test.
unfoldable pub find_from : (ℕ → Bool) → Bytes → ℕ → Option ℕ
find_from p [] position = none
find_from p (c ∷ cs) position =
    let rest = find_from p cs (suc position) in if p c then some position else rest

unfoldable pub find_first : (ℕ → Bool) → Bytes → ℕ → Option ℕ
unfolding find_from
find_first p input position = find_from p (drop position input) position

-- The bytes up to a position that a search has found, or up to the end.
abbrev pub span_length : Bytes → ℕ → Option ℕ → ℕ
span_length input begin none = length input - begin
span_length input begin (some end) = end - begin

-- There is no byte left, or one that is no space.
abbrev pub starts_ink : Bytes → Bool
starts_ink [] = true
starts_ink (c ∷ cs) = not (is_space c)

abbrev pub none_of : (ℕ → Bool) → Bytes → Bool
none_of p = all (λ c. not (p c))

-- Skipping splits the bytes behind their leading spaces.
abbrev pub SkipSplit : Bytes → ℕ → ℕ → Type 0
SkipSplit xs p q =
    (lead : Bytes) × (rest : Bytes) × (xs ≡ lead ++ rest)
    × (all is_space lead ≡ true)
    × (starts_ink rest ≡ true)
    × (q ≡ p + length lead)

pub skip_from-split : (xs : Bytes) (p : ℕ) → SkipSplit xs p (skip_from xs p)
unfolding skip_from
skip_from-split [] p = ([], [], refl, refl, refl, omega arith)
skip_from-split (c ∷ cs) p = elim (Bool-cases (is_space c)) [
  | inl h ↦
      let (lead, rest, e, a, s, q) = skip_from-split cs (suc p) in
      (c ∷ lead, rest, ap (◌∷◌ c) e, rw h a, s, rw h (omega arith))
  | inr h ↦ ([], c ∷ cs, refl, refl, rw h, rw h (omega arith))
]

pub skip_from-append :
    (lead rest : Bytes) (p q : ℕ)
    → all is_space lead ≡ true
    → starts_ink rest ≡ true
    → p + length lead ≡ q
    → skip_from (lead ++ rest) p ≡ q
unfolding skip_from
skip_from-append [] [] p q a s e = omega arith
skip_from-append [] (c ∷ cs) p q a s e = ground arith
skip_from-append (c ∷ cs) rest p q a s e = ground (arith, skip_from-append cs rest (suc p) q)

-- A search that succeeds splits the bytes at the first one that passes.
abbrev pub FindSplit : (ℕ → Bool) → Bytes → ℕ → ℕ → Type 0
FindSplit p xs i j =
    (pre : Bytes) × (c : ℕ) × (post : Bytes) × (xs ≡ pre ++ c ∷ post)
    × (none_of p pre ≡ true)
    × (p c ≡ true)
    × (j ≡ i + length pre)

pub find_from-split :
    (p : ℕ → Bool) (xs : Bytes) (i j : ℕ) → find_from p xs i ≡ some j → FindSplit p xs i j
unfolding find_from
find_from-split p [] i j e = cc
find_from-split p (c ∷ cs) i j e = elim (Bool-cases (p c)) [
  | inl h ↦ ([], c, cs, refl, refl, h, ground arith)
  | inr h ↦
      let (pre, d, post, s, a, k, q) = find_from-split p cs (suc i) j (ground arith) in
      (c ∷ pre, d, post, ap (◌∷◌ c) s, rw h a, k, omega arith)
]

pub find_from-none :
    (p : ℕ → Bool) (xs : Bytes) (i : ℕ) → find_from p xs i ≡ none → none_of p xs ≡ true
unfolding find_from
find_from-none p [] i e = refl
find_from-none p (c ∷ cs) i e = ground (arith, find_from-none p cs (suc i))

pub find_from-append :
    (p : ℕ → Bool) (xs : Bytes) (c : ℕ) (ys : Bytes) (i j : ℕ)
    → none_of p xs ≡ true
    → p c ≡ true
    → i + length xs ≡ j
    → find_from p (xs ++ c ∷ ys) i ≡ some j
unfolding find_from
find_from-append p [] c ys i j a h e = ground arith
find_from-append p (x ∷ xs) c ys i j a h e = ground (arith, find_from-append p xs c ys (suc i) j)

pub find_from_all :
    (p : ℕ → Bool) (xs : Bytes) (i : ℕ) → none_of p xs ≡ true → find_from p xs i ≡ none
unfolding find_from
find_from_all p [] i a = refl
find_from_all p (x ∷ xs) i a = ground (arith, find_from_all p xs (suc i))

-- A position with bytes behind it lies inside the input.
pub drop_inside :
    (k : ℕ) (input rest : Bytes) → drop k input ≡ rest → is_empty rest ≡ false → k < length input
drop_inside k input [] d e = cc
drop_inside k input (c ∷ cs) d e = omega (arith, ap length d, length-drop k input)
