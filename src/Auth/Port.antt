-- ===== src/Auth/Port.antt =====
-- The port of the command line (`parse_port` and its use in client-cpp/src/auth.cpp).
use mathlib.Core.List.{append_assoc, append-nil}
use cross_language_lan_chatr.Prelude.{
  ℕ, zero, suc, ◌+◌, ◌-◌, ◌*◌, ◌/◌, ◌%◌, ◌^◌, ◌≤◌, ◌<◌, ◌≡◌, refl, sym, ap, ◌∙◌, subst, Bool, true,
  false, not, ◌&&◌, Option, none, some, List, [], ◌∷◌, ◌++◌, arith, if◌then◌else◌, ltb, leb, ◌==◌,
  is_empty, Bytes, codes, ℤ, pos, negsuc, Bool-cases, Option-cases, inl, inr,
}
use cross_language_lan_chatr.Attachments.Crypto.Decimal.{digits, to_string}
use cross_language_lan_chatr.Auth.{
  ClientOptions, default_options, Error, guest_arguments, server_arguments, Argument, guest, host,
  unknown, positional, takes, Destination, ca_file, server_exe, cert, key, set_value, Scanned,
  parse_port, read_argument, classify, awaited, go_on, scan, name_guest, finish_host, finish,
  finish_scanned, parse_arguments, read_decimal, is_digit, from_chars, in_range,
}

-- The digits of a number in front of a text are read as that number.
read_decimal-digits :
    (fuel n : ℕ) (ys : Bytes) → n < fuel → read_decimal 0 (digits fuel n ++ ys) ≡ read_decimal n ys
unfolding digits read_decimal
read_decimal-digits zero n ys h = absurd (omega arith)
read_decimal-digits (suc fuel) n ys h = elim (Bool-cases (ltb n 10)) [
  | inl small ↦
      let value : 0 * 10 + (48 + n % 10 - 48) ≡ n = ground arith in
      let digit : is_digit (48 + n % 10) ≡ true = ground arith in rw (small, digit, value) refl
  | inr big ↦
      let value : n / 10 * 10 + (48 + n % 10 - 48) ≡ n = ground arith in
      let digit : is_digit (48 + n % 10) ≡ true = ground arith in
      rw
        (
          big,
          append_assoc (digits fuel (n / 10)) ((48 + n % 10) ∷ []) ys,
          read_decimal-digits fuel (n / 10) ((48 + n % 10) ∷ ys) (ground arith),
          digit,
          value,
        )
        refl
]

-- The text of a number begins with a digit.
record Front (xs : Bytes) : Type 0 where
  first : ℕ
  rest : Bytes
  split : xs ≡ first ∷ rest
  digit : is_digit first ≡ true

digits-Front : (fuel n : ℕ) (ys : Bytes) → n < fuel → Front (digits fuel n ++ ys)
unfolding digits
digits-Front zero n ys h = absurd (omega arith)
digits-Front (suc fuel) n ys h = elim (Bool-cases (ltb n 10)) [
  | inl small ↦
      rw small record { first = 48 + n % 10; rest = ys; split = refl; digit = ground arith }
  | inr big ↦
      rw (big, append_assoc (digits fuel (n / 10)) ((48 + n % 10) ∷ []) ys)
        (digits-Front fuel (n / 10) ((48 + n % 10) ∷ ys) (ground arith))
]

parse_port-Front :
    (xs : Bytes) (n : ℕ)
    → Front xs
    → read_decimal 0 xs ≡ (n, [])
    → 1 ≤ n
    → n ≤ 65535
    → parse_port xs ≡ some n
unfolding parse_port from_chars
parse_port-Front xs n f e l h =
    let digit : is_digit f.first ≡ true = f.digit in
    let no_dash : (f.first == b'-') ≡ false = ground arith in
    let front : read_decimal 0 (f.first ∷ f.rest) ≡ (n, []) =
      ap (read_decimal 0) (sym f.split) ∙ e in
    let fits : leb n (2 ^ 31 - 1) ≡ true = ground arith in
    let low : ltb n 1 ≡ false = ground arith in
    let high : ltb 65535 n ≡ false = ground arith in
    rw (f.split, no_dash, front, digit, fits, low, high) refl

-- The decimal text of every port from 1 to 65535 is read as that port.
pub parse_port-to_string : (n : ℕ) → 1 ≤ n → n ≤ 65535 → parse_port (to_string (pos n)) ≡ some n
unfolding to_string read_decimal
parse_port-to_string n l h =
    let text = digits (suc n) n in
    let end : text ++ [] ≡ text = append-nil text in
    parse_port-Front text n (subst Front end (digits-Front (suc n) n [] (omega arith)))
      (ap (read_decimal 0) (sym end) ∙ read_decimal-digits (suc n) n [] (omega arith)) l h

abbrev pub InRange : ℕ → Type 0
InRange n = (1 ≤ n) × (n ≤ 65535)

in_range-InRange : (p : ℤ × Bytes) (n : ℕ) → in_range p ≡ some n → InRange n
in_range-InRange (negsuc m, rest) n e = absurd (cc e)
in_range-InRange (pos m, rest) n e = ground arith

parse_port-InRange : (value : Bytes) (n : ℕ) → parse_port value ≡ some n → InRange n
unfolding parse_port
parse_port-InRange [] n e = absurd (cc e)
parse_port-InRange (c ∷ cs) n e = elim (Option-cases (from_chars (c ∷ cs))) [
  | inl bad ↦ absurd (cc (rw bad at e))
  | inr (p, good) ↦ in_range-InRange p n (rw good at e)
]

set_value-port :
    (d : Destination) (v : Bytes) (o : ClientOptions)
    → (set_value d v o).server_port ≡ o.server_port
set_value-port ca_file v o = refl
set_value-port server_exe v o = refl
set_value-port cert v o = refl
set_value-port key v o = refl

read_argument-InRange :
    (o : ClientOptions) (n : ℕ) (k : Argument) (a : Bytes)
    → InRange o.server_port
    → InRange (read_argument o n k a).1.server_port
unfolding read_argument
read_argument-InRange o n guest a h = h
read_argument-InRange o n host a h = h
read_argument-InRange o n unknown a h = h
read_argument-InRange o n (takes d) a h = h
read_argument-InRange o zero positional a h = h
read_argument-InRange o (suc zero) positional a h = elim (Option-cases (parse_port a)) [
  | inl bad ↦ rw bad h
  | inr (p, good) ↦ rw good (parse_port-InRange a p good)
]
read_argument-InRange o (suc (suc zero)) positional a h = h
read_argument-InRange o (suc (suc (suc zero))) positional a h = h
read_argument-InRange o (suc (suc (suc (suc n)))) positional a h = h

go_on-InRange :
    (rest : ClientOptions → ℕ → Scanned)
    → ((o : ClientOptions) (n : ℕ) → InRange o.server_port → InRange (rest o n).1.server_port)
    → (r : Scanned) → InRange r.1.server_port
    → InRange (go_on rest r).1.server_port
go_on-InRange rest step (some e, o, n) h = h
go_on-InRange rest step (none, o, n) h = step o n h

scan-InRange :
    (d : Option Destination) (args : List Bytes) (o : ClientOptions) (n : ℕ)
    → InRange o.server_port
    → InRange (scan d args o n).1.server_port
unfolding scan
scan-InRange none [] o n h = h
scan-InRange (some d) [] o n h = h
scan-InRange (some d) (v ∷ args) o n h = elim (Bool-cases (is_empty v)) [
  | inl missing ↦ rw missing h
  | inr given ↦ rw given (scan-InRange none args (set_value d v o) n (rw (set_value-port d v o) h))
]
scan-InRange none (a ∷ args) o n h =
    go_on-InRange (scan (awaited (classify a)) args) (scan-InRange (awaited (classify a)) args)
      (read_argument o n (classify a) a) (read_argument-InRange o n (classify a) a h)

either :
    (b : Bool) (r r' : Option Error × ClientOptions)
    → InRange r.1.server_port
    → InRange r'.1.server_port
    → InRange (if b then r else r').1.server_port
either true r r' h k = h
either false r r' h k = k

name_guest-InRange :
    (draw : ℕ → ℕ) (o : ClientOptions)
    → InRange o.server_port
    → InRange (name_guest draw o).1.server_port
name_guest-InRange draw o h = either (o.guest_mode && is_empty o.user_code) _ (none, o) h h

finish_host-InRange :
    (draw : ℕ → ℕ) (o : ClientOptions) (n : ℕ)
    → InRange o.server_port
    → InRange (finish_host draw o n).1.server_port
finish_host-InRange draw o zero h =
    name_guest-InRange draw (record o { username = codes "Host"; server_port = 8888 })
      (omega arith, omega arith)
finish_host-InRange draw o (suc zero) h =
    name_guest-InRange draw
      (record o { username = o.server_ip; server_ip = codes "127.0.0.1"; server_port = 8888 })
      (omega arith, omega arith)
finish_host-InRange draw o (suc (suc n)) h = h

finish_scanned-InRange :
    (draw : ℕ → ℕ) (r : Scanned)
    → InRange r.1.server_port
    → InRange (finish_scanned draw r).1.server_port
unfolding finish
finish_scanned-InRange draw (some e, o, n) h = h
finish_scanned-InRange draw (none, o, n) h =
    either o.host_mode (finish_host draw o n) _ (finish_host-InRange draw o n h) (
      either (o.guest_mode && not (n == 3)) (some guest_arguments, o) _ h
        (either (not o.guest_mode && ltb n 4) (some server_arguments, o) (name_guest draw o) h
          (name_guest-InRange draw o h)))

-- Whatever the arguments are, and whether they are accepted or not, the port of the options is from
-- 1 to 65535.
pub parse_arguments-InRange :
    (draw : ℕ → ℕ) (args : List Bytes) → InRange (parse_arguments draw args).1.server_port
unfolding parse_arguments
parse_arguments-InRange draw args =
    finish_scanned-InRange draw (scan none args default_options 0)
      (scan-InRange none args default_options 0 (omega arith, omega arith))
