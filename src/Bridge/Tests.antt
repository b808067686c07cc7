-- ===== src/Bridge/Tests.antt =====
-- Tests and examples for client-cpp/gui/src/bridge_protocol.cpp.
use cross_language_lan_chatr.Prelude.{
  ℕ, ◌≡◌, refl, ◌↔◌, ◌⊎◌, true, false, none, some, [], ◌∷◌, if◌then◌else◌, ltb, leb, ◌==◌, length,
  Bytes, codes, same, pos,
}
use cross_language_lan_chatr.Json.{
  Json, integer, text, array, object, item, no_items, Members, member, no_members, get, set_key,
  less,
}
use cross_language_lan_chatr.Bridge.{
  Qt, has_required_strings, has_key, without_secrets, items_without, members_without, safe_state,
  make_command_result, make_error,
}
use cross_language_lan_chatr.Bridge.Rules.{first_rule, validate_command, invalid_command}
use cross_language_lan_chatr.Bridge.Secrets.{key, at, passes_secret, at-safe_state}
use cross_language_lan_chatr.Bridge.Requests.{Accepted, validate_command-Accepted}

abbrev left_trimmed : Bytes → Bytes
left_trimmed [] = []
left_trimmed (c ∷ cs) = let rest = left_trimmed cs in if c == b' ' then rest else c ∷ cs

abbrev whole : Json → ℕ
whole (integer (pos n)) = n
whole _ = 0

-- Strings of ASCII codes and whole numbers.
abbrev plain_qt : Qt
plain_qt = record {
  trimmed = left_trimmed;
  to_lower = λ s. s;
  utf8_size = length;
  to_int = λ v. pos (whole v);
  Double = ℕ;
  to_double = whole;
  number = λ n. n;
  less = ltb;
  at_most = leb;
  equal = λ a b. a == b;
  floor = λ n. n;
  is_finite = λ n. true;
}

abbrev secretive : Json
secretive = object (
    member (codes "password") (text (codes "x")) (
      member (codes "servers")
        (array (
          item
            (object (
              member (codes "keyFile") (text (codes "k"))
                (member (codes "name") (text (codes "n")) no_members)))
            no_items))
        no_members))

stripped :
    without_secrets secretive
    ≡ object (
        member
          (codes "servers")
          (array (item (object (member (codes "name") (text (codes "n")) no_members)) no_items))
          no_members)
unfolding without_secrets items_without members_without has_key same set_key less
stripped = refl

abbrev login_state : Members
login_state =
    member (codes "login") (object (member (codes "password") (text (codes "x")) no_members))
      no_members

password_passes : passes_secret (key (codes "login") ∷ key (codes "password") ∷ []) ≡ true
unfolding passes_secret has_key same
password_passes = refl

at-safe_state_example :
    at (key (codes "login") ∷ key (codes "password") ∷ []) (object (safe_state login_state)) ≡ none
at-safe_state_example =
    at-safe_state login_state (key (codes "login") ∷ key (codes "password") ∷ []) password_passes

default_version : get (codes "schemaVersion") (safe_state login_state) ≡ some (integer (pos 1))
unfolding get safe_state members_without without_secrets has_key same set_key less
default_version = refl

abbrev select_room : Members
select_room = member (codes "id") (text (codes "7")) (
    member (codes "payload") (object (member (codes "room") (text (codes "lobby")) no_members))
      (member (codes "type") (text (codes "conversation.selectRoom")) no_members))

selected : validate_command plain_qt select_room ≡ (true, [])
unfolding validate_command first_rule has_required_strings has_key get same
selected = refl

blank_room :
    validate_command plain_qt (
      set_key
        (codes "payload")
        (object (member (codes "room") (text (codes "  ")) no_members))
        select_room)
    ≡ (false, invalid_command)
unfolding validate_command first_rule has_required_strings has_key get same set_key less
blank_room = refl

validate_command-Accepted_example :
    ((validate_command plain_qt select_room ≡ (true, [])) ↔ Accepted plain_qt select_room)
    × ((validate_command plain_qt select_room ≡ (true, []))
        ⊎ (validate_command plain_qt select_room ≡ (false, invalid_command)))
validate_command-Accepted_example = validate_command-Accepted plain_qt select_room

no_error_kept : get (codes "error") (make_command_result (codes "7") true select_room) ≡ none
unfolding make_command_result get set_key same less
no_error_kept = refl

error_kept :
    get (codes "commandId") (make_error (codes "c") (codes "m") true (codes "s") (codes "7"))
    ≡ some (text (codes "7"))
unfolding make_error get set_key same less
error_kept = refl
