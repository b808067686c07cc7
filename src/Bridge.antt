-- ===== src/Bridge.antt =====
-- The requests of the page and the state that is shown to it: client-cpp/gui/src/bridge_protocol.cpp.
-- `QJsonValue` is `Json`, a member that is missing is `none`. What the code asks of Qt's strings and
-- of `double` is the parameter `Qt`.
pub mod Secrets
pub mod Rules
pub mod Requests
mod Tests
use cross_language_lan_chatr.Prelude.{
  ℕ, Bool, true, false, not, ◌&&◌, ◌||◌, Option, none, some, List, [], ◌∷◌, ◌++◌, if◌then◌else◌,
  leb, ltb, ◌==◌, leb_ℤ, is_empty, length, all, Bytes, codes, same, ℤ, pos,
}
use cross_language_lan_chatr.Json.{
  Json, boolean, integer, floating, text, array, object, Items, no_items, item, Members, no_members,
  member, get, set_key, list_of,
}
use cross_language_lan_chatr.Attachments.Chunks.{max_logical_bytes, max_chunk_count}

pub record Qt : Type 1 where
  pub trimmed : Bytes → Bytes
  pub to_lower : Bytes → Bytes
  pub utf8_size : Bytes → ℕ
  pub to_int : Json → ℤ
  pub Double : Type 0
  pub to_double : Json → Double
  pub number : ℕ → Double
  pub less : Double → Double → Bool
  pub at_most : Double → Double → Bool
  pub equal : Double → Double → Bool
  pub floor : Double → Double
  pub is_finite : Double → Bool

abbrev pub is_text : Option Json → Bool
is_text (some (text s)) = true
is_text _ = false

abbrev pub is_undefined : Option Json → Bool
is_undefined none = true
is_undefined (some v) = false

abbrev pub is_boolean : Option Json → Bool
is_boolean (some (boolean b)) = true
is_boolean _ = false

abbrev pub is_object : Option Json → Bool
is_object (some (object ms)) = true
is_object _ = false

abbrev pub is_double : Json → Bool
is_double (integer i) = true
is_double (floating n) = true
is_double _ = false

abbrev pub to_text : Option Json → Bytes
to_text (some (text s)) = s
to_text _ = []

abbrev pub to_object : Option Json → Members
to_object (some (object ms)) = ms
to_object _ = no_members

abbrev pub has_no_members : Members → Bool
has_no_members no_members = true
has_no_members (member k v ms) = false

abbrev pub secret_keys : List Bytes
secret_keys = codes "password" ∷ codes "privateKey" ∷ codes "privateKeyFile" ∷ codes "keyFile" ∷ []

unfoldable pub has_key : List Bytes → Bytes → Bool
has_key [] key = false
has_key (k ∷ ks) key = same k key || has_key ks key

abbrev pub boolean_value : Members → Bytes → Bool
boolean_value ms key = is_boolean (get key ms)

abbrev pub has_opaque_crypto : Members → Bool
has_opaque_crypto payload =
    is_object (get (codes "crypto") payload)
    && not (has_no_members (to_object (get (codes "crypto") payload)))

-- `result.insert` of the members one after another; their keys differ, so the order does not matter.
unfoldable mutual
  pub without_secrets : Json → Json
  without_secrets (array vs) = array (items_without vs)
  without_secrets (object ms) = object (members_without ms)
  without_secrets v = v

  pub items_without : Items → Items
  items_without no_items = no_items
  items_without (item v vs) = item (without_secrets v) (items_without vs)

  pub members_without : Members → Members
  members_without no_members = no_members
  members_without (member key v ms) =
      let rest = members_without ms in
      let kept = without_secrets v in
      if not (has_key secret_keys key) then set_key key kept rest else rest

unfoldable pub safe_state : Members → Members
safe_state state =
    if is_undefined (get (codes "schemaVersion") (members_without state))
    then set_key (codes "schemaVersion") (integer (pos 1)) (members_without state)
    else members_without state

-- `to_json` is `QJsonDocument::toJson`.
abbrev pub serialize_state : (Json → Bytes) → Members → Bytes
serialize_state to_json state = to_json (object (safe_state state))

unfoldable pub make_command_result : Bytes → Bool → Members → Members
make_command_result command_id ok error =
    let result =
      set_key (codes "ok") (boolean ok) (set_key (codes "id") (text command_id) no_members) in
    if not ok && not (has_no_members error)
    then set_key (codes "error") (object error) result
    else result

unfoldable pub make_error : Bytes → Bytes → Bool → Bytes → Bytes → Members
make_error code message retryable source command_id =
    let error = set_key (codes "source") (text source) (
      set_key (codes "retryable") (boolean retryable) (
        set_key (codes "message") (text message)
          (set_key (codes "code") (text code) no_members))) in
    if not (is_empty command_id) then set_key (codes "commandId") (text command_id) error else error

module _ (qt : Qt) where
  abbrev pub non_blank : Option Json → Bool
  non_blank (some (text s)) = not (is_empty (qt.trimmed s))
  non_blank _ = false

  abbrev pub non_empty_string : Members → Bytes → Bool
  non_empty_string ms key = non_blank (get key ms)

  abbrev pub bounded : ℕ → Bool → Option Json → Bool
  bounded max_bytes require_non_empty (some (text s)) =
      if require_non_empty && is_empty (qt.trimmed s) then false else leb (qt.utf8_size s) max_bytes
  bounded _ _ _ = false

  abbrev pub bounded_utf8_string : Members → Bytes → ℕ → Bool → Bool
  bounded_utf8_string ms key max_bytes require_non_empty =
      bounded max_bytes require_non_empty (get key ms)

  abbrev pub valid_port : Option Json → Bool
  valid_port none = false
  valid_port (some v) =
      is_double v && leb_ℤ (pos 1) (qt.to_int v) && leb_ℤ (qt.to_int v) (pos 65535)

  abbrev pub integer_value : Members → Bytes → Bool
  integer_value ms key = valid_port (get key ms)

  abbrev pub frame_time : Json → Bool
  frame_time sample =
      is_double sample
      && qt.is_finite (qt.to_double sample)
      && not (qt.at_most (qt.to_double sample) (qt.number 0))
      && not (qt.less (qt.number 1000) (qt.to_double sample))

  abbrev pub frame_times : Option Json → Bool
  frame_times (some (array vs)) =
      not (is_empty (list_of vs) || ltb 8 (length (list_of vs))) && all frame_time (list_of vs)
  frame_times _ = false

  abbrev pub bounded_frame_times : Members → Bool
  bounded_frame_times payload = frame_times (get (codes "frameTimesMs") payload)

  unfoldable pub has_required_strings : Members → List Bytes → Bool
  has_required_strings payload [] = true
  has_required_strings payload (key ∷ keys) =
      let rest = has_required_strings payload keys in
      if not (non_empty_string payload key) then false else rest

  abbrev pub valid_logical_size : Option Json → Bool
  valid_logical_size none = false
  valid_logical_size (some v) =
      is_double v
      && qt.less (qt.number 0) (qt.to_double v)
      && qt.at_most (qt.to_double v) (qt.number max_logical_bytes)
      && qt.equal (qt.floor (qt.to_double v)) (qt.to_double v)

  abbrev pub not_negative : Option Json → Bool
  not_negative none = false
  not_negative (some v) = is_double v && qt.at_most (qt.number 0) (qt.to_double v)

  abbrev pub valid_chunk_index : Option Json → Bool
  valid_chunk_index none = false
  valid_chunk_index (some v) =
      is_double v
      && qt.at_most (qt.number 0) (qt.to_double v)
      && qt.less (qt.to_double v) (qt.number max_chunk_count)
      && qt.equal (qt.floor (qt.to_double v)) (qt.to_double v)
