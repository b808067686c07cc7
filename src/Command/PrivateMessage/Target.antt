-- ===== src/Command/PrivateMessage/Target.antt =====
-- The checks on `Name#Code` (`parse_private_message` of client-cpp/src/command.cpp).
use cross_language_lan_chatr.Prelude.{
  ℕ, ◌+◌, ◌≡◌, refl, sym, ap, ◌∙◌, Bool, true, false, not, none, some, List, [], ◌∷◌, ◌++◌, arith,
  ltb, ◌==◌, length, is_empty, take, drop, Bytes, guard-eq-some, >>=-eq-some, ◌<◌, take_at,
  drop_past, all-imp, length-append,
}
use cross_language_lan_chatr.Command.Scan.{
  is_space, is_blank, is_valid_code, is_ascii_alphanumeric, find_first, none_of, find_from-append,
  find_from_all, find_from-split,
}
use cross_language_lan_chatr.Command.PrivateMessage.{is_hash, is_none, parse_target}

-- A name with no `#` and a valid code.
pub record IsTarget (name code : Bytes) : Type 0 where
  pub named : is_empty name ≡ false
  pub no_hash : none_of is_hash name ≡ true
  pub valid : is_valid_code code ≡ true

pub valid_code-none_of :
    (p : ℕ → Bool) (code : Bytes)
    → ((c : ℕ) → is_ascii_alphanumeric c ≡ true → not (p c) ≡ true)
    → is_valid_code code ≡ true
    → none_of p code ≡ true
unfolding is_valid_code
valid_code-none_of p code f h = all-imp is_ascii_alphanumeric (λ c. not (p c)) f code (ground arith)

is_empty-length : {A : Type 0} (xs : List A) → is_empty xs ≡ (length xs == 0)
is_empty-length [] = refl
is_empty-length (x ∷ xs) = ground arith

alphanumeric_no_hash : (c : ℕ) → is_ascii_alphanumeric c ≡ true → not (is_hash c) ≡ true
unfolding is_ascii_alphanumeric
alphanumeric_no_hash c h = ground arith

pub alphanumeric_no_blank : (c : ℕ) → is_ascii_alphanumeric c ≡ true → not (is_blank c) ≡ true
unfolding is_ascii_alphanumeric is_blank
alphanumeric_no_blank c h = ground arith

pub blank-is_space : (c : ℕ) → is_blank c ≡ true → is_space c ≡ true
unfolding is_blank is_space
blank-is_space c h = ground arith

valid-nonempty : (code : Bytes) → is_valid_code code ≡ true → is_empty code ≡ false
unfolding is_valid_code
valid-nonempty code h = ground arith

-- The separator is found behind the name, and no second one behind it.
find-hash :
    (name code : Bytes)
    → IsTarget name code
    → (find_first is_hash (name ++ b'#' ∷ code) 0 ≡ some (length name))
      × (find_first is_hash (name ++ b'#' ∷ code) (length name + 1) ≡ none)
unfolding find_first
find-hash name code t = (
  find_from-append is_hash name b'#' code 0 (length name) t.no_hash refl (omega arith),
  rw (drop_past (length name + 1) name b'#' code refl) (
      find_from_all is_hash code (length name + 1)
        (valid_code-none_of is_hash code alphanumeric_no_hash t.valid)),
)

pub parse_target-IsTarget :
    (name code : Bytes)
    → IsTarget name code
    → parse_target (name ++ b'#' ∷ code) ≡ some (name, code)
unfolding parse_target
parse_target-IsTarget name code t = ground (
  arith,
  find-hash name code t,
  t.named,
  t.valid,
  is_empty-length name,
  is_empty-length code,
  is_empty-length (name ++ b'#' ∷ code),
  valid-nonempty code t.valid,
  length-append name (b'#' ∷ code),
  take_at (length name) name (b'#' ∷ code) refl,
  drop_past (length name + 1) name b'#' code refl,
)

pub not_equal : (a b : ℕ) → a < b → (a == b) ≡ false
not_equal a b h = ground arith

-- What the successful steps on `Name#Code` have computed.
pub record TargetSteps (target name code : Bytes) : Type 0 where
  pub separator : ℕ
  pub found : find_first is_hash target 0 ≡ some separator
  pub positive : not (separator == 0) ≡ true
  pub valid : is_valid_code (drop (separator + 1) target) ≡ true
  pub name_is : take separator target ≡ name
  pub code_is : drop (separator + 1) target ≡ code

pub parse_target-TargetSteps :
    (target name code : Bytes)
    → parse_target target ≡ some (name, code)
    → TargetSteps target name code
unfolding parse_target
parse_target-TargetSteps target name code e =
    let (c, e1) = guard-eq-some (not (is_empty target)) _ e in
    let (sep, es, e2) = >>=-eq-some (find_first is_hash target 0) _ e1 in
    let (z, e3) = guard-eq-some (not (sep == 0)) _ e2 in
    let (l, e4) = guard-eq-some (ltb (sep + 1) (length target)) _ e3 in
    let (n, e5) = guard-eq-some (is_none (find_first is_hash target (sep + 1))) _ e4 in
    let (v, e6) = guard-eq-some (is_valid_code (drop (sep + 1) target)) _ e5 in
    record {
      separator = sep;
      found = es;
      positive = z;
      valid = v;
      name_is = ground arith;
      code_is = ground arith;
    }

pub IsTarget-TargetSteps :
    (target name code : Bytes)
    → TargetSteps target name code
    → (target ≡ name ++ b'#' ∷ code) × IsTarget name code
unfolding find_first
IsTarget-TargetSteps target name code s =
    let (pre, c, post, e, n, h, q) = find_from-split is_hash target 0 s.separator s.found in
    let front : take s.separator target ≡ pre =
      ap (take s.separator) e ∙ (take_at s.separator pre (c ∷ post) (omega arith)) in
    let back : drop (s.separator + 1) target ≡ post =
      ap (drop (s.separator + 1)) e ∙ (drop_past (s.separator + 1) pre c post (omega arith)) in
    let name_pre : name ≡ pre = sym s.name_is ∙ front in
    let code_post : code ≡ post = sym s.code_is ∙ back in
    (
      ground arith,
      record {
        named = ground (arith, is_empty-length pre, s.positive);
        no_hash = rw name_pre n;
        valid = ground (arith, s.valid);
      },
    )
