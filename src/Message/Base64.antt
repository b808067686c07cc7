-- ===== src/Message/Base64.antt =====
-- `is_base64` of client-cpp/src/message.cpp.
use cross_language_lan_chatr.Prelude.{
  ℕ, zero, suc, ◌+◌, ◌-◌, ◌%◌, ◌≤◌, ◌<◌, ◌≡◌, refl, sym, ap, ◌∙◌, Bool, true, false, not, ◌&&◌,
  ◌||◌, [], ◌∷◌, ◌++◌, arith, ◌↔◌, check_passed, ==_iff, subst, if◌then◌else◌, ltb, leb, ◌==◌,
  length, length-append, replicate, is_empty, all, Bytes, Bool-cases, inl, inr,
}

abbrev pub is_alphabet : ℕ → Bool
is_alphabet c =
    leb b'A' c && leb c b'Z'
    || leb b'a' c && leb c b'z'
    || leb b'0' c && leb c b'9'
    || c == b'+'
    || c == b'/'

abbrev pub pad : ℕ
pad = b'='

unfoldable pub base64_loop : Bytes → ℕ → ℕ → ℕ → Bool
base64_loop [] size index padding = true
base64_loop (c ∷ cs) size index padding =
    let rest = base64_loop cs size (suc index) (if c == pad then padding + 1 else padding) in
    if c == pad
    then (if ltb index (size - 2) || ltb 2 (padding + 1) then false else rest)
    else if not (is_alphabet c) || not (padding == 0)
    then false
    else rest

unfoldable pub is_base64 : Bytes → Bool
is_base64 value =
    if is_empty value || not (length value % 4 == 0)
    then false
    else base64_loop value (length value) 0 0

-- Letters, digits, `+` and `/`, then at most two `=`, in groups of four.
pub record Base64 (value : Bytes) : Type 0 where
  pub body : Bytes
  pub padding : ℕ
  pub split : value ≡ body ++ replicate padding pad
  pub letters : all is_alphabet body ≡ true
  pub few : padding ≤ 2
  pub fours : length value % 4 ≡ 0
  pub some_value : is_empty value ≡ false

-- Behind the first `=` there are only `=`.
loop-pads :
    (cs : Bytes) (size index padding : ℕ)
    → 0 < padding
    → padding ≤ 2
    → base64_loop cs size index padding ≡ true
    → (cs ≡ replicate (length cs) pad) × (padding + length cs ≤ 2)
unfolding base64_loop
loop-pads [] size index padding p f h = (refl, omega arith)
loop-pads (c ∷ cs) size index padding p f h = elim (Bool-cases (c == pad)) [
  | inl is_pad ↦
      let (few, rest) =
        check_passed (ltb index (size - 2) || ltb 2 (padding + 1))
          (base64_loop cs size (suc index) (padding + 1)) (rw is_pad at h) in
      let (pads, short) =
        loop-pads cs size (suc index) (padding + 1) (omega arith) (ground arith) rest in
      let same_pad : c ≡ pad = ground arith in
      (ap (λ d. d ∷ cs) same_pad ∙ ap (◌∷◌ pad) pads, omega arith)
  | inr other ↦
      let (letter, rest) =
        check_passed (not (is_alphabet c) || not (padding == 0))
          (base64_loop cs size (suc index) padding) (rw other at h) in
      absurd (ground arith)
]

loop-split :
    (cs : Bytes) (size index : ℕ)
    → base64_loop cs size index 0 ≡ true
    → (body : Bytes) × (k : ℕ) × (cs ≡ body ++ replicate k pad)
      × (all is_alphabet body ≡ true)
      × (k ≤ 2)
unfolding base64_loop
loop-split [] size index h = ([], 0, refl, refl, omega arith)
loop-split (c ∷ cs) size index h = elim (Bool-cases (c == pad)) [
  | inl is_pad ↦
      let (few, rest) =
        check_passed (ltb index (size - 2) || ltb 2 1) (base64_loop cs size (suc index) 1)
          (rw is_pad at h) in
      let (pads, short) = loop-pads cs size (suc index) 1 (omega arith) (omega arith) rest in
      let same_pad : c ≡ pad = ground arith in
      ([], suc (length cs), ap (λ d. d ∷ cs) same_pad ∙ ap (◌∷◌ pad) pads, refl, omega arith)
  | inr other ↦
      let (letter, rest) =
        check_passed (not (is_alphabet c) || not (0 == 0)) (base64_loop cs size (suc index) 0)
          (rw other at h) in
      let (body, k, split, letters, few) = loop-split cs size (suc index) rest in
      let first : is_alphabet c ≡ true = not_or (is_alphabet c) letter in
      (c ∷ body, k, ap (◌∷◌ c) split, rw first letters, few)
]
  where
    not_or : (b : Bool) → (not b || false) ≡ false → b ≡ true
    not_or true e = refl
    not_or false e = absurd (cc e)

alphabet_no_pad : (c : ℕ) → is_alphabet c ≡ true → (c == pad) ≡ false
alphabet_no_pad c h = ground arith

join-loop :
    (body : Bytes) (k size index : ℕ)
    → all is_alphabet body ≡ true
    → k ≤ 2
    → index + (length body + k) ≡ size
    → base64_loop (body ++ replicate k pad) size index 0 ≡ true
unfolding base64_loop
join-loop [] zero size index h f e = refl
join-loop [] (suc zero) size index h f e =
    let late : ltb index (size - 2) ≡ false = ground arith in rw late refl
join-loop [] (suc (suc zero)) size index h f e =
    let late : ltb index (size - 2) ≡ false = ground arith in
    let later : ltb (suc index) (size - 2) ≡ false = ground arith in rw (late, later) refl
join-loop [] (suc (suc (suc k))) size index h f e = absurd (omega arith)
join-loop (c ∷ cs) k size index h f e =
    let (first, others) = all_cons c cs h in
    rw (alphabet_no_pad c first, first) (join-loop cs k size (suc index) others f (omega arith))
  where
    all_cons :
        (c : ℕ) (cs : Bytes)
        → all is_alphabet (c ∷ cs) ≡ true
        → (is_alphabet c ≡ true) × (all is_alphabet cs ≡ true)
    all_cons c cs h = ground arith

length-pads : (k : ℕ) → length (replicate k pad) ≡ k
length-pads zero = refl
length-pads (suc k) = ap suc (length-pads k)

is_base64-Base64 : (value : Bytes) → is_base64 value ≡ true → Base64 value
unfolding is_base64
is_base64-Base64 value h =
    let (shape, rest) =
      check_passed (is_empty value || not (length value % 4 == 0))
        (base64_loop value (length value) 0 0) h in
    let (body, k, split, letters, few) = loop-split value (length value) 0 rest in
    record {
      body = body;
      padding = k;
      split = split;
      letters = letters;
      few = few;
      fours = ground arith;
      some_value = ground arith;
    }

Base64-is_base64 : (value : Bytes) → Base64 value → is_base64 value ≡ true
unfolding is_base64
Base64-is_base64 value b =
    let fours : (length value % 4 == 0) ≡ true = (==_iff _ _).1 b.fours in
    let total : 0 + (length b.body + b.padding) ≡ length value = omega (
      arith,
      ap length b.split,
      length-append b.body (replicate b.padding pad),
      length-pads b.padding,
    ) in
    let loop = join-loop b.body b.padding (length value) 0 b.letters b.few total in
    rw (b.some_value, fours)
      (subst (λ v. base64_loop v (length value) 0 0 ≡ true) (sym b.split) loop)

-- A text passes as base64 exactly if it is not empty, its length is a multiple of four, and it is
-- made of letters, digits, `+` and `/` with at most two `=` at its end.
pub is_base64_iff : (value : Bytes) → (is_base64 value ≡ true) ↔ Base64 value
is_base64_iff value = (is_base64-Base64 value, Base64-is_base64 value)
