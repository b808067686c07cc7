-- ===== src/Bridge/Secrets.antt =====
-- What of the state reaches the page (`withoutSecrets` and `serializeState` of
-- client-cpp/gui/src/bridge_protocol.cpp).
use cross_language_lan_chatr.Prelude.{
  ℕ, zero, suc, ◌≡◌, refl, sym, ap, ◌∙◌, Bool, true, false, ◌&&◌, ◌||◌, Option, none, some, List,
  [], ◌∷◌, if◌then◌else◌, inl, inr, Bool-cases, Bytes, codes, same, same→eq, ◌>>=◌, ℤ, pos,
}
use cross_language_lan_chatr.Json.{
  Json, null, boolean, integer, floating, text, array, object, Items, no_items, item, Members,
  no_members, member, get,
}
use cross_language_lan_chatr.Json.Build.{get-set_key}
use cross_language_lan_chatr.Bridge.{
  secret_keys, has_key, is_undefined, without_secrets, items_without, members_without, safe_state,
}

-- A way into a value: the members and elements to take, one after another.
pub data Step : Type 0 where
  key : Bytes → Step
  index : ℕ → Step

unfoldable pub element : ℕ → Items → Option Json
element n no_items = none
element zero (item v vs) = some v
element (suc n) (item v vs) = element n vs

abbrev pub step : Step → Json → Option Json
step (key k) (object ms) = get k ms
step (index n) (array vs) = element n vs
step _ _ = none

unfoldable pub at : List Step → Json → Option Json
at [] v = some v
at (s ∷ path) v = step s v >>= λ w. at path w

abbrev pub is_secret : Step → Bool
is_secret (key k) = has_key secret_keys k
is_secret (index n) = false

unfoldable pub passes_secret : List Step → Bool
passes_secret [] = false
passes_secret (s ∷ path) = is_secret s || passes_secret path

abbrev pub cleaned : Option Json → Option Json
cleaned none = none
cleaned (some v) = some (without_secrets v)

abbrev pub unless : Bool → Option Json → Option Json
unless true o = none
unless false o = o

unless-none : (b : Bool) → none ≡ unless b none
unless-none true = refl
unless-none false = refl

get-members_without :
    (k : Bytes) (ms : Members)
    → get k (members_without ms) ≡ unless (has_key secret_keys k) (cleaned (get k ms))
unfolding get members_without
get-members_without k no_members = unless-none (has_key secret_keys k)
get-members_without k (member j v ms) =
    let rest = get-members_without k ms in
    let set = get-set_key k j (without_secrets v) (members_without ms) in
    let moved : same j k ≡ true → has_key secret_keys k ≡ has_key secret_keys j =
      λ e. sym (ap (has_key secret_keys) (same→eq j k e)) in
    elim (Bool-cases (has_key secret_keys j)) [
      | inl secret ↦ elim (Bool-cases (same j k)) [
        | inl here ↦ let gone = moved here ∙ secret in rw (secret, here, rest, gone) refl
        | inr other ↦ rw (secret, other, rest) refl
      ]
      | inr shown ↦ elim (Bool-cases (same j k)) [
        | inl here ↦ let kept = moved here ∙ shown in rw (shown, set, here, kept) refl
        | inr other ↦ rw (shown, set, other, rest) refl
      ]
    ]

element-items_without : (n : ℕ) (vs : Items) → element n (items_without vs) ≡ cleaned (element n vs)
unfolding element items_without
element-items_without n no_items = refl
element-items_without zero (item v vs) = refl
element-items_without (suc n) (item v vs) = element-items_without n vs

step-without_secrets :
    (s : Step) (v : Json) → step s (without_secrets v) ≡ unless (is_secret s) (cleaned (step s v))
unfolding without_secrets
step-without_secrets (key k) (object ms) = get-members_without k ms
step-without_secrets (index n) (array vs) = element-items_without n vs
step-without_secrets (key k) null = unless-none (has_key secret_keys k)
step-without_secrets (key k) (boolean b) = unless-none (has_key secret_keys k)
step-without_secrets (key k) (integer i) = unless-none (has_key secret_keys k)
step-without_secrets (key k) (floating d) = unless-none (has_key secret_keys k)
step-without_secrets (key k) (text t) = unless-none (has_key secret_keys k)
step-without_secrets (key k) (array vs) = unless-none (has_key secret_keys k)
step-without_secrets (index n) null = refl
step-without_secrets (index n) (boolean b) = refl
step-without_secrets (index n) (integer i) = refl
step-without_secrets (index n) (floating d) = refl
step-without_secrets (index n) (text t) = refl
step-without_secrets (index n) (object ms) = refl

-- Through any members and elements, the value without its secrets holds nothing if one of the members
-- is `password`, `privateKey`, `privateKeyFile` or `keyFile`, and otherwise what the value holds,
-- without its secrets.
pub at-without_secrets :
    (path : List Step) (v : Json)
    → at path (without_secrets v) ≡ unless (passes_secret path) (cleaned (at path v))
unfolding at passes_secret
at-without_secrets [] v = refl
at-without_secrets (s ∷ path) v =
    ap (λ o. o >>= λ w. at path w) (step-without_secrets s v)
    ∙ taken (λ w. at-without_secrets path w) (is_secret s) (step s v)
  where
    taken :
        ((w : Json)
          → at path (without_secrets w) ≡ unless (passes_secret path) (cleaned (at path w)))
        → (b : Bool) (o : Option Json)
        → (unless b (cleaned o) >>= λ w. at path w)
          ≡ unless (b || passes_secret path) (cleaned (o >>= λ w. at path w))
    taken ih true o = refl
    taken ih false none = unless-none (passes_secret path)
    taken ih false (some w) = ih w

is_undefined-cleaned : (o : Option Json) → is_undefined (cleaned o) ≡ is_undefined o
is_undefined-cleaned none = refl
is_undefined-cleaned (some v) = refl

abbrev version : Bytes
version = codes "schemaVersion"

shown-version : has_key secret_keys version ≡ false
unfolding has_key same
shown-version = refl

-- What the page is shown: no secret at any depth, a `schemaVersion`, which is the state's own if it has
-- one, and every other member of the state without its secrets.
pub get-safe_state :
    (state : Members) (k : Bytes)
    → get k (safe_state state) ≡ (
        if same (codes "schemaVersion") k && is_undefined (get (codes "schemaVersion") state)
        then some (integer (pos 1))
        else unless (has_key secret_keys k) (cleaned (get k state)))
unfolding safe_state
get-safe_state state k =
    let stripped = get-members_without version state in
    let undefined : is_undefined (get version (members_without state))
        ≡ is_undefined (get version state) =
      ap is_undefined (stripped ∙ ap (λ b. unless b (cleaned (get version state))) shown-version)
      ∙ is_undefined-cleaned (get version state) in
    elim (Bool-cases (is_undefined (get version state))) [
      | inl missing ↦
          let gone = undefined ∙ missing in
          rw
            (
              gone,
              missing,
              get-set_key k version (integer (pos 1)) (members_without state),
              get-members_without k state,
            )
            (and_true (same version k) (some (integer (pos 1)))
              (unless (has_key secret_keys k) (cleaned (get k state))))
      | inr present ↦
          let there = undefined ∙ present in
          rw (there, present, get-members_without k state)
            (and_false (same version k) (some (integer (pos 1)))
              (unless (has_key secret_keys k) (cleaned (get k state))))
    ]
  where
    and_true : (b : Bool) (x y : Option Json) → (if b then x else y) ≡ (if b && true then x else y)
    and_true true x y = refl
    and_true false x y = refl

    and_false : (b : Bool) (x y : Option Json) → y ≡ (if b && false then x else y)
    and_false true x y = refl
    and_false false x y = refl

at-integer : (i : ℤ) (path : List Step) → passes_secret path ≡ true → at path (integer i) ≡ none
unfolding at passes_secret
at-integer i [] h = absurd (cc h)
at-integer i (key k ∷ path) h = refl
at-integer i (index n ∷ path) h = refl

-- In the state that the page is shown, no secret is found at any depth, whatever the state is.
pub at-safe_state :
    (state : Members) (path : List Step)
    → passes_secret path ≡ true
    → at path (object (safe_state state)) ≡ none
unfolding at passes_secret get without_secrets
at-safe_state state [] h = absurd (cc h)
at-safe_state state (index n ∷ path) h = refl
at-safe_state state (key k ∷ path) h =
    ap (λ o. o >>= λ w. at path w) (get-safe_state state k)
    ∙ elim (Bool-cases (same version k && is_undefined (get version state))) [
      | inl default ↦ rw default (
          at-integer (pos 1) path (
            later_secret h (
              ap (has_key secret_keys) (sym (same→eq version k (first _ _ default)))
              ∙ shown-version)))
      | inr other ↦ rw other (
          ap (λ o. o >>= λ w. at path w) (sym (get-members_without k state))
          ∙ at-without_secrets (key k ∷ path) (object state)
          ∙ ap (λ b. unless b (cleaned (at (key k ∷ path) (object state)))) h)
    ]
  where
    first : (b c : Bool) → b && c ≡ true → b ≡ true
    first true c e = refl
    first false c e = absurd (cc e)

    later_secret :
        passes_secret (key k ∷ path) ≡ true
        → has_key secret_keys k ≡ false
        → passes_secret path ≡ true
    later_secret e shown = rw shown at e
