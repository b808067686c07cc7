-- ===== src/Bridge/Requests.antt =====
-- Which requests of the page are accepted (`validateCommand` of client-cpp/gui/src/bridge_protocol.cpp).
pub mod Chosen
use cross_language_lan_chatr.Prelude.{
  ◌≡◌, refl, sym, ap, ◌∙◌, ◌↔◌, ◌⊎◌, Bool, true, false, not, ◌&&◌, ◌||◌, Option, none, some, List,
  [], ◌∷◌, if◌then◌else◌, inl, inr, Bool-cases, check_passed, is_empty, Bytes, codes, same, same→eq,
  same_refl,
}
use cross_language_lan_chatr.Json.{
  Json, null, boolean, integer, floating, text, array, object, Members, get,
}
use cross_language_lan_chatr.Bridge.{
  Qt, has_required_strings, non_blank, non_empty_string, is_object, to_text, to_object, has_key,
}
use cross_language_lan_chatr.Bridge.Rules.{
  Rule, rules, accepts, first_rule, validate_payload, validate_command, invalid_command,
}
use cross_language_lan_chatr.Bridge.Requests.Chosen.{
  Listed, Filled, non_blank-text, Filled-non_empty_string, is_object-members, and-true,
  has_required_strings-Filled, Filled-has_required_strings, first_rule-Listed, Listed-first_rule,
  rules-distinct,
}

-- A request that names a rule and follows it, in whatever order the rules stand.
pub record Accepted (qt : Qt) (command : Members) : Type 0 where
  pub id : Filled qt command (codes "id")
  pub type : Bytes
  pub type_at : get (codes "type") command ≡ some (text type)
  pub type_filled : is_empty (qt.trimmed type) ≡ false
  pub payload : Members
  pub payload_at : get (codes "payload") command ≡ some (object payload)
  pub rule : Rule
  pub listed : Listed rule (rules qt)
  pub named : has_key rule.types type ≡ true
  pub required : (key : Bytes) → has_key rule.required key ≡ true → Filled qt payload key
  pub extra : rule.extra payload ≡ true

command-Accepted :
    (qt : Qt) (command : Members)
    → non_empty_string qt command (codes "id") ≡ true
    → non_empty_string qt command (codes "type") ≡ true
    → is_object (get (codes "payload") command) ≡ true
    → validate_payload qt
        (to_text (get (codes "type") command))
        (to_object (get (codes "payload") command))
      ≡ true
    → Accepted qt command
command-Accepted qt command has_id has_type has_payload ok =
    let (type, type_at, type_filled) = non_blank-text qt (get (codes "type") command) has_type in
    let payload = to_object (get (codes "payload") command) in
    let (rule, listed, named, follows) =
      first_rule-Listed qt (rules qt) (to_text (get (codes "type") command)) payload ok in
    let (required, extra) =
      and-true (has_required_strings qt payload rule.required) (rule.extra payload) follows in
    record {
      id = non_blank-text qt (get (codes "id") command) has_id;
      type = type;
      type_at = type_at;
      type_filled = type_filled;
      payload = payload;
      payload_at = is_object-members (get (codes "payload") command) has_payload;
      rule = rule;
      listed = listed;
      named = ap (has_key rule.types) (sym (ap to_text type_at)) ∙ named;
      required = has_required_strings-Filled qt payload rule.required required;
      extra = extra;
    }

Accepted-payload :
    (qt : Qt) (command : Members) (a : Accepted qt command)
    → validate_payload qt a.type a.payload ≡ true
Accepted-payload qt command a =
    let strings = Filled-has_required_strings qt a.payload a.rule.required a.required in
    Listed-first_rule qt a.rule (rules qt) a.type a.payload (rules-distinct qt) a.listed a.named
    ∙ ap (λ b. b && a.rule.extra a.payload) strings
    ∙ a.extra

abbrev verdict : Bool → Bool → Bool → Bool → Bool × Bytes
verdict a b c d =
    if not a || not b || not c
    then (false, invalid_command)
    else if not d
    then (false, invalid_command)
    else (true, [])

verdict-true :
    (a b c d : Bool)
    → verdict a b c d ≡ (true, [])
    → (a ≡ true) × (b ≡ true) × (c ≡ true) × (d ≡ true)
verdict-true true true true true h = (refl, refl, refl, refl)
verdict-true false b c d h = absurd (cc (ap (λ v. v.0) h))
verdict-true true false c d h = absurd (cc (ap (λ v. v.0) h))
verdict-true true true false d h = absurd (cc (ap (λ v. v.0) h))
verdict-true true true true false h = absurd (cc (ap (λ v. v.0) h))

verdict-cases :
    (a b c d : Bool) → (verdict a b c d ≡ (true, [])) ⊎ (verdict a b c d ≡ (false, invalid_command))
verdict-cases true true true true = inl refl
verdict-cases false b c d = inr refl
verdict-cases true false c d = inr refl
verdict-cases true true false d = inr refl
verdict-cases true true true false = inr refl

-- A request passes with no error code exactly if its `id` and `type` are strings with more than blanks
-- in them, its `payload` is an object, and one of the rules, in whatever order they stand, names the
-- type, has its required strings filled in and its further condition met; every other request is
-- refused with `invalid_command`.
pub validate_command-Accepted :
    (qt : Qt) (command : Members)
    → ((validate_command qt command ≡ (true, [])) ↔ Accepted qt command)
      × ((validate_command qt command ≡ (true, []))
          ⊎ (validate_command qt command ≡ (false, invalid_command)))
unfolding validate_command
validate_command-Accepted qt command =
    let has_id = non_empty_string qt command (codes "id") in
    let has_type = non_empty_string qt command (codes "type") in
    let has_payload = is_object (get (codes "payload") command) in
    let ok =
      validate_payload qt (to_text (get (codes "type") command))
        (to_object (get (codes "payload") command)) in
    (
      (
        λ h.
            let (a, b, c, d) = verdict-true has_id has_type has_payload ok h in
            command-Accepted qt command a b c d,
        accepted,
      ),
      verdict-cases has_id has_type has_payload ok,
    )
  where
    accepted : Accepted qt command → validate_command qt command ≡ (true, [])
    accepted a =
        let has_id = Filled-non_empty_string qt command (codes "id") a.id in
        let passes = Accepted-payload qt command a in
        let filled = a.type_filled in
        let typed = a.type_at in
        let held = a.payload_at in rw (has_id, typed, held, filled, passes) refl
