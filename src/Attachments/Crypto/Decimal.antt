-- ===== src/Attachments/Crypto/Decimal.antt =====
-- `std::to_string` on a `std::int64_t`, as attachment_crypto.cpp uses it.
use cross_language_lan_chatr.Prelude.{
  ℕ, zero, suc, ◌+◌, ◌-◌, ◌*◌, ◌/◌, ◌%◌, ◌<◌, ◌≡◌, refl, sym, ap, ◌∙◌, Bool, true, not, [], ◌∷◌,
  ◌++◌, arith, if◌then◌else◌, ltb, ◌==◌, all, all-append, Bytes, ℤ, pos, negsuc, Bool-cases, inl,
  inr,
}

-- The decimal digits of a number; the fuel is a bound on how many there are.
unfoldable pub digits : ℕ → ℕ → Bytes
digits zero n = []
digits (suc fuel) n =
    let more = digits fuel (n / 10) in (if ltb n 10 then [] else more) ++ (48 + n % 10) ∷ []

unfoldable pub to_string : ℤ → Bytes
unfolding digits
to_string (pos n) = digits (suc n) n
to_string (negsuc n) = b'-' ∷ digits (suc (suc n)) (suc n)

read_digits : ℕ → Bytes → ℕ
read_digits acc [] = acc
read_digits acc (c ∷ cs) = read_digits (acc * 10 + (c - 48)) cs

read_digits-append :
    (acc : ℕ) (xs ys : Bytes) → read_digits acc (xs ++ ys) ≡ read_digits (read_digits acc xs) ys
unfolding read_digits
read_digits-append acc [] ys = refl
read_digits-append acc (x ∷ xs) ys = read_digits-append (acc * 10 + (x - 48)) xs ys

read_digits-digits : (fuel n : ℕ) → n < fuel → read_digits 0 (digits fuel n) ≡ n
unfolding digits read_digits
read_digits-digits zero n h = absurd (omega arith)
read_digits-digits (suc fuel) n h = elim (Bool-cases (ltb n 10)) [
  | inl small ↦ rw small (ground arith)
  | inr big ↦
      rw (big, read_digits-append 0 (digits fuel (n / 10)) ((48 + n % 10) ∷ []))
        (ground (arith, read_digits-digits fuel (n / 10)))
]

-- The text of a number that is not negative determines it.
pub to_string-pos_injective : (m n : ℕ) → to_string (pos m) ≡ to_string (pos n) → m ≡ n
unfolding to_string
to_string-pos_injective m n e =
    sym (read_digits-digits (suc m) m (omega arith))
    ∙ ap (read_digits 0) e
    ∙ read_digits-digits (suc n) n (omega arith)

abbrev pub no_newline : Bytes → Bool
no_newline = all (λ c. not (c == b'\n'))

digits-no_newline : (fuel n : ℕ) → no_newline (digits fuel n) ≡ true
unfolding digits
digits-no_newline zero n = refl
digits-no_newline (suc fuel) n = elim (Bool-cases (ltb n 10)) [
  | inl small ↦ rw small (ground arith)
  | inr big ↦ rw big (
      all-append _ (digits fuel (n / 10)) ((48 + n % 10) ∷ []) (digits-no_newline fuel (n / 10))
        (ground arith))
]

pub to_string-no_newline : (i : ℤ) → no_newline (to_string i) ≡ true
unfolding to_string
to_string-no_newline (pos n) = digits-no_newline (suc n) n
to_string-no_newline (negsuc n) = digits-no_newline (suc (suc n)) (suc n)
