-- ===== src/Auth/Guest.antt =====
-- The user code of a guest (`parse_arguments` and `make_guest_code` of client-cpp/src/auth.cpp).
use cross_language_lan_chatr.Prelude.{
  ℕ, zero, suc, ◌≤◌, ◌<◌, ◌≡◌, refl, sym, ap, ◌∙◌, Bool, true, false, not, ◌&&◌, Option, none, some,
  List, [], ◌∷◌, arith, if◌then◌else◌, ltb, ◌==◌, length, is_empty, all, Bytes, if_true, if_false,
  Bool-cases, Option-cases, inl, inr,
}
use cross_language_lan_chatr.Command.Scan.{is_valid_code, is_ascii_alphanumeric}
use cross_language_lan_chatr.Auth.{
  ClientOptions, default_options, Error, guest_arguments, server_arguments, Argument, guest, host,
  unknown, positional, takes, Destination, ca_file, server_exe, cert, key, set_value, Scanned,
  set_port, parse_port, read_argument, classify, awaited, go_on, scan, name_guest, finish_host,
  finish, finish_scanned, parse_arguments, make_guest_code, letter_at, alphabet,
}

-- A guest has no code before the fourth positional argument, and a host is a guest.
record Coded (o : ClientOptions) (n : ℕ) : Type 0 where
  guest_code : o.guest_mode ≡ true → n ≤ 3 → o.user_code ≡ []
  host_guest : o.host_mode ≡ true → o.guest_mode ≡ true

set_value-Coded :
    (d : Destination) (v : Bytes) (o : ClientOptions) (n : ℕ)
    → Coded o n
    → Coded (set_value d v o) n
set_value-Coded ca_file v o n h = record { guest_code = h.guest_code; host_guest = h.host_guest }
set_value-Coded server_exe v o n h = record { guest_code = h.guest_code; host_guest = h.host_guest }
set_value-Coded cert v o n h = record { guest_code = h.guest_code; host_guest = h.host_guest }
set_value-Coded key v o n h = record { guest_code = h.guest_code; host_guest = h.host_guest }

set_port-Coded : (o : ClientOptions) (p : Option ℕ) → Coded o 1 → Coded (set_port o 2 p).1 2
set_port-Coded o none h = record {
  guest_code = λ g l. h.guest_code g (omega arith);
  host_guest = h.host_guest;
}
set_port-Coded o (some p) h = record {
  guest_code = λ g l. h.guest_code g (omega arith);
  host_guest = h.host_guest;
}

read_argument-Coded :
    (o : ClientOptions) (n : ℕ) (k : Argument) (a : Bytes)
    → Coded o n
    → Coded (read_argument o n k a).1 (read_argument o n k a).2
unfolding read_argument
read_argument-Coded o n guest a h = record { guest_code = λ g l. refl; host_guest = λ g. refl }
read_argument-Coded o n host a h = record { guest_code = λ g l. refl; host_guest = λ g. refl }
read_argument-Coded o n unknown a h = h
read_argument-Coded o n (takes d) a h = h
read_argument-Coded o zero positional a h = record {
  guest_code = λ g l. h.guest_code g (omega arith);
  host_guest = h.host_guest;
}
read_argument-Coded o (suc zero) positional a h = elim (Option-cases (parse_port a)) [
  | inl bad ↦ rw bad (set_port-Coded o none h)
  | inr (p, good) ↦ rw good (set_port-Coded o (some p) h)
]
read_argument-Coded o (suc (suc zero)) positional a h = record {
  guest_code = λ g l. h.guest_code g (omega arith);
  host_guest = h.host_guest;
}
read_argument-Coded o (suc (suc (suc zero))) positional a h = record {
  guest_code = λ g l. absurd (omega arith);
  host_guest = h.host_guest;
}
read_argument-Coded o (suc (suc (suc (suc n)))) positional a h = record {
  guest_code = λ g l. absurd (omega arith);
  host_guest = h.host_guest;
}

go_on-Coded :
    (rest : ClientOptions → ℕ → Scanned)
    → ((o : ClientOptions) (n : ℕ) → Coded o n → Coded (rest o n).1 (rest o n).2)
    → (r : Scanned) → Coded r.1 r.2
    → Coded (go_on rest r).1 (go_on rest r).2
go_on-Coded rest step (some e, o, n) h = h
go_on-Coded rest step (none, o, n) h = step o n h

scan-Coded :
    (d : Option Destination) (args : List Bytes) (o : ClientOptions) (n : ℕ)
    → Coded o n
    → Coded (scan d args o n).1 (scan d args o n).2
unfolding scan
scan-Coded none [] o n h = h
scan-Coded (some d) [] o n h = h
scan-Coded (some d) (v ∷ args) o n h = elim (Bool-cases (is_empty v)) [
  | inl missing ↦ rw missing h
  | inr given ↦ rw given (scan-Coded none args (set_value d v o) n (set_value-Coded d v o n h))
]
scan-Coded none (a ∷ args) o n h =
    go_on-Coded (scan (awaited (classify a)) args) (scan-Coded (awaited (classify a)) args)
      (read_argument o n (classify a) a) (read_argument-Coded o n (classify a) a h)

name_guest-code :
    (draw : ℕ → ℕ) (o o' : ClientOptions)
    → (o.guest_mode ≡ true → o.user_code ≡ [])
    → name_guest draw o ≡ (none, o')
    → o'.guest_mode ≡ true
    → o'.user_code ≡ make_guest_code draw
name_guest-code draw o o' coded e g = elim (Bool-cases o.guest_mode) [
  | inl as_guest ↦ sym (ap (λ r. r.1.user_code) (rw (as_guest, coded as_guest) at e))
  | inr plain ↦
      let kept : false ≡ o'.guest_mode = ap (λ r. r.1.guest_mode) (rw plain at e) in
      absurd (cc (kept, g))
]

finish_host-code :
    (draw : ℕ → ℕ) (o : ClientOptions) (n : ℕ) (o' : ClientOptions)
    → Coded o n
    → finish_host draw o n ≡ (none, o')
    → o'.guest_mode ≡ true
    → o'.user_code ≡ make_guest_code draw
finish_host-code draw o zero o' h e g =
    name_guest-code draw _ o' (λ g. h.guest_code g (omega arith)) e g
finish_host-code draw o (suc zero) o' h e g =
    name_guest-code draw _ o' (λ g. h.guest_code g (omega arith)) e g
finish_host-code draw o (suc (suc n)) o' h e g = absurd (cc e)

finish-code :
    (draw : ℕ → ℕ) (o : ClientOptions) (n : ℕ) (o' : ClientOptions)
    → Coded o n
    → finish draw o n ≡ (none, o')
    → o'.guest_mode ≡ true
    → o'.user_code ≡ make_guest_code draw
unfolding finish
finish-code draw o n o' h e g =
    let wrong = o.guest_mode && not (n == 3) in
    let short = not o.guest_mode && ltb n 4 in
    let named = name_guest draw o in
    let served = if short then (some server_arguments, o) else named in
    let checked = if wrong then (some guest_arguments, o) else served in
    elim (Bool-cases o.host_mode) [
      | inl as_host ↦
          finish_host-code draw o n o' h
            (sym (if_true o.host_mode (finish_host draw o n) checked as_host) ∙ e) g
      | inr plain ↦
          let e1 : checked ≡ (none, o') =
            sym (if_false o.host_mode (finish_host draw o n) checked plain) ∙ e in
          let (right, e2) = passed wrong guest_arguments o served o' e1 in
          let (enough, e3) = passed short server_arguments o named o' e2 in
          name_guest-code draw o o' (λ as_guest. h.guest_code as_guest (ground arith)) e3 g
    ]
  where
    passed :
        (b : Bool) (error : Error) (o : ClientOptions) (r : Option Error × ClientOptions)
        (o' : ClientOptions)
        → (if b then (some error, o) else r) ≡ (none, o')
        → (b ≡ false) × (r ≡ (none, o'))
    passed true error o r o' e = absurd (cc e)
    passed false error o r o' e = (refl, e)

finish_scanned-code :
    (draw : ℕ → ℕ) (r : Scanned) (o' : ClientOptions)
    → Coded r.1 r.2
    → finish_scanned draw r ≡ (none, o')
    → o'.guest_mode ≡ true
    → o'.user_code ≡ make_guest_code draw
finish_scanned-code draw (some error, o, n) o' h e g = absurd (cc e)
finish_scanned-code draw (none, o, n) o' h e g = finish-code draw o n o' h e g

letter_at-alphabet :
    (xs : Bytes) (i : ℕ)
    → i < length xs
    → all is_ascii_alphanumeric xs ≡ true
    → is_ascii_alphanumeric (letter_at xs i) ≡ true
unfolding letter_at
letter_at-alphabet [] i l h = absurd (omega arith)
letter_at-alphabet (c ∷ cs) zero l h = ground arith
letter_at-alphabet (c ∷ cs) (suc i) l h = letter_at-alphabet cs i (omega arith) (ground arith)

alphabet_letters : all is_ascii_alphanumeric alphabet ≡ true
unfolding is_ascii_alphanumeric
alphabet_letters = refl

make_guest_code-valid :
    (draw : ℕ → ℕ) → ((i : ℕ) → draw i < 32) → is_valid_code (make_guest_code draw) ≡ true
unfolding make_guest_code is_valid_code
make_guest_code-valid draw h =
    let letter : (i : ℕ) → is_ascii_alphanumeric (letter_at alphabet (draw i)) ≡ true =
      λ i. letter_at-alphabet alphabet (draw i) (h i) alphabet_letters in
    rw (letter 0, letter 1, letter 2, letter 3, letter 4, letter 5) refl

default_options-Coded : Coded default_options 0
default_options-Coded = record {
  guest_code = λ g l. absurd (cc g);
  host_guest = λ g. absurd (cc g);
}

-- When the arguments are accepted for a guest, which a host is too, the user code is the generated
-- one, whatever the arguments are, and `/msg` accepts it as a code if the random numbers stay in
-- the range of the distribution.
pub parse_arguments-guest :
    (draw : ℕ → ℕ) (args : List Bytes) (o : ClientOptions)
    → ((i : ℕ) → draw i < 32)
    → parse_arguments draw args ≡ (none, o)
    → o.guest_mode ≡ true
    → (o.user_code ≡ make_guest_code draw) × (is_valid_code o.user_code ≡ true)
unfolding parse_arguments
parse_arguments-guest draw args o h e g =
    let code =
      finish_scanned-code draw (scan none args default_options 0) o
        (scan-Coded none args default_options 0 default_options-Coded) e g in
    (code, rw code (make_guest_code-valid draw h))
