-- ===== src/Bridge/Requests/Chosen.antt =====
-- The rule that a request is judged by (`validatePayload` of client-cpp/gui/src/bridge_protocol.cpp).
use cross_language_lan_chatr.Prelude.{
  ◌≡◌, refl, sym, ap, ◌∙◌, ◌⊎◌, Bool, true, false, not, ◌&&◌, ◌||◌, Option, none, some, List, [],
  ◌∷◌, inl, inr, Bool-cases, check_passed, is_empty, Bytes, same, same→eq, same_refl,
}
use cross_language_lan_chatr.Json.{
  Json, null, boolean, integer, floating, text, array, object, Members, get,
}
use cross_language_lan_chatr.Bridge.{
  Qt, has_required_strings, non_blank, non_empty_string, is_object, to_object, has_key,
}
use cross_language_lan_chatr.Bridge.Rules.{Rule, rules, accepts, first_rule}

unfoldable pub Listed : Rule → List Rule → Type 0
Listed rule [] = ⊥
Listed rule (other ∷ others) = (rule ≡ other) ⊎ Listed rule others

-- A member that is a string with more in it than blanks.
abbrev pub Filled : Qt → Members → Bytes → Type 0
Filled qt ms key = (s : Bytes) × (get key ms ≡ some (text s)) × (is_empty (qt.trimmed s) ≡ false)

pub unnegated : (b : Bool) → not b ≡ true → b ≡ false
unnegated true e = absurd (cc e)
unnegated false e = refl

pub or-right : (b c : Bool) → c ≡ true → b || c ≡ true
or-right true c e = refl
or-right false c e = e

pub non_blank-text :
    (qt : Qt) (o : Option Json)
    → non_blank qt o ≡ true
    → (s : Bytes) × (o ≡ some (text s)) × (is_empty (qt.trimmed s) ≡ false)
non_blank-text qt (some (text s)) h = (s, refl, unnegated (is_empty (qt.trimmed s)) h)
non_blank-text qt none h = absurd (cc h)
non_blank-text qt (some null) h = absurd (cc h)
non_blank-text qt (some (boolean b)) h = absurd (cc h)
non_blank-text qt (some (integer i)) h = absurd (cc h)
non_blank-text qt (some (floating d)) h = absurd (cc h)
non_blank-text qt (some (array vs)) h = absurd (cc h)
non_blank-text qt (some (object ms)) h = absurd (cc h)

pub Filled-non_empty_string :
    (qt : Qt) (ms : Members) (key : Bytes) → Filled qt ms key → non_empty_string qt ms key ≡ true
Filled-non_empty_string qt ms key (s, at, filled) = rw (at, filled) refl

pub is_object-members : (o : Option Json) → is_object o ≡ true → o ≡ some (object (to_object o))
is_object-members (some (object ms)) h = refl
is_object-members none h = absurd (cc h)
is_object-members (some null) h = absurd (cc h)
is_object-members (some (boolean b)) h = absurd (cc h)
is_object-members (some (integer i)) h = absurd (cc h)
is_object-members (some (floating d)) h = absurd (cc h)
is_object-members (some (text s)) h = absurd (cc h)
is_object-members (some (array vs)) h = absurd (cc h)

pub or-true : (b c : Bool) → b || c ≡ true → (b ≡ true) ⊎ (c ≡ true)
or-true true c h = inl refl
or-true false c h = inr h

pub and-true : (b c : Bool) → b && c ≡ true → (b ≡ true) × (c ≡ true)
and-true true c h = (refl, h)
and-true false c h = absurd (cc h)

pub has_required_strings-Filled :
    (qt : Qt) (payload : Members) (keys : List Bytes)
    → has_required_strings qt payload keys ≡ true
    → (key : Bytes) → has_key keys key ≡ true
    → Filled qt payload key
unfolding has_required_strings has_key
has_required_strings-Filled qt payload [] h key e = absurd (cc e)
has_required_strings-Filled qt payload (k ∷ ks) h key e =
    let (filled, rest) =
      check_passed (not (non_empty_string qt payload k)) (has_required_strings qt payload ks) h in
    let others = has_required_strings-Filled qt payload ks rest in
    elim (or-true (same k key) (has_key ks key) e) [
      | inl here ↦
          non_blank-text qt (get key payload)
            (rw (sym (same→eq k key here)) (holds (non_empty_string qt payload k) filled))
      | inr later ↦ others key later
    ]
  where
    holds : (b : Bool) → not b ≡ false → b ≡ true
    holds true e = refl
    holds false e = absurd (cc e)

pub Filled-has_required_strings :
    (qt : Qt) (payload : Members) (keys : List Bytes)
    → ((key : Bytes) → has_key keys key ≡ true → Filled qt payload key)
    → has_required_strings qt payload keys ≡ true
unfolding has_required_strings has_key
Filled-has_required_strings qt payload [] h = refl
Filled-has_required_strings qt payload (k ∷ ks) h =
    let rest =
      Filled-has_required_strings qt payload ks
        (λ key e. h key (or-right (same k key) (has_key ks key) e)) in
    let first = Filled-non_empty_string qt payload k (h k (rw (same_refl k) refl)) in
    rw (first, rest) refl

pub first_rule-Listed :
    (qt : Qt) (rs : List Rule) (type : Bytes) (payload : Members)
    → first_rule qt rs type payload ≡ true
    → (rule : Rule) × Listed rule rs
      × (has_key rule.types type ≡ true)
      × (accepts qt rule payload ≡ true)
unfolding first_rule Listed
first_rule-Listed qt [] type payload h = absurd (cc h)
first_rule-Listed qt (r ∷ rs) type payload h =
    let later = first_rule-Listed qt rs type payload in
    elim (Bool-cases (has_key r.types type)) [
      | inl here ↦ (r, inl refl, here, rw here at h)
      | inr other ↦
          let (rule, listed, named, ok) = later (rw other at h) in (rule, inr listed, named, ok)
    ]

-- No rule is about a type that a later one is about too.
abbrev names : Bytes → List Rule → Bool
names type [] = false
names type (r ∷ rs) = has_key r.types type || names type rs

abbrev none_named : List Bytes → List Rule → Bool
none_named [] rs = true
none_named (t ∷ ts) rs = not (names t rs) && none_named ts rs

abbrev distinct : List Rule → Bool
distinct [] = true
distinct (r ∷ rs) = none_named r.types rs && distinct rs

Listed-names :
    (rule : Rule) (rs : List Rule) (type : Bytes)
    → Listed rule rs
    → has_key rule.types type ≡ true
    → names type rs ≡ true
unfolding Listed
Listed-names rule [] type l h = absurd l
Listed-names rule (r ∷ rs) type (inl e) h =
    let at = ap (λ q. has_key q.types type) (sym e) ∙ h in rw at refl
Listed-names rule (r ∷ rs) type (inr l) h =
    or-right (has_key r.types type) (names type rs) (Listed-names rule rs type l h)

none_named-names :
    (ts : List Bytes) (rs : List Rule) (type : Bytes)
    → none_named ts rs ≡ true
    → has_key ts type ≡ true
    → names type rs ≡ false
unfolding has_key
none_named-names [] rs type d h = absurd (cc h)
none_named-names (t ∷ ts) rs type d h =
    let (first, rest) = and-true (not (names t rs)) (none_named ts rs) d in
    let others = none_named-names ts rs type rest in
    elim (or-true (same t type) (has_key ts type) h) [
      | inl here ↦ let at = same→eq t type here in rw (sym at) (unnegated (names t rs) first)
      | inr later ↦ others later
    ]

pub Listed-first_rule :
    (qt : Qt) (rule : Rule) (rs : List Rule) (type : Bytes) (payload : Members)
    → distinct rs ≡ true
    → Listed rule rs
    → has_key rule.types type ≡ true
    → first_rule qt rs type payload ≡ accepts qt rule payload
unfolding first_rule Listed
Listed-first_rule qt rule [] type payload d l h = absurd l
Listed-first_rule qt rule (r ∷ rs) type payload d (inl e) h =
    let at = ap (λ q. has_key q.types type) (sym e) ∙ h in
    rw at (ap (λ q. accepts qt q payload) (sym e))
Listed-first_rule qt rule (r ∷ rs) type payload d (inr l) h =
    let (apart, rest) = and-true (none_named r.types rs) (distinct rs) d in
    let ih = Listed-first_rule qt rule rs type payload rest l h in
    elim (Bool-cases (has_key r.types type)) [
      | inl both ↦
          absurd (cc (none_named-names r.types rs type apart both, Listed-names rule rs type l h))
      | inr other ↦ rw (other, ih) refl
    ]

pub rules-distinct : (qt : Qt) → distinct (rules qt) ≡ true
unfolding has_key same
rules-distinct qt = refl
