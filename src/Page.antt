-- ===== src/Page.antt =====
-- The bridge that shows the page a state and answers its requests: client-cpp/gui/src/chat_bridge.cpp
-- and chat_bridge.hpp. A list model is its address, a number; what the objects around the bridge
-- return is the record `Window`. The results are the objects before `toJson` prints them, the times
-- that a build takes are left out, a JSON value that a getter returns is not looked into, and the
-- controller returns no null model.
pub mod Steps
pub mod Branches
pub mod Dispatch
pub mod Answers
pub mod Signals
pub mod Fresh
mod Tests
use cross_language_lan_chatr.Prelude.{
  ℕ, zero, suc, ◌-◌, ◌+◌, Bool, true, false, not, ◌&&◌, ◌||◌, Option, none, some, List, [], ◌∷◌,
  if◌then◌else◌, ◌==◌, length, is_empty, take, drop, Bytes, codes, same,
}
use cross_language_lan_chatr.Prelude.Map.{lookup, insert, erase, nat_eq, bytes_eq}
use cross_language_lan_chatr.Json.{
  Json, boolean, text, array, object, Items, no_items, item, Members, no_members, get, set_key,
}
use cross_language_lan_chatr.Bridge.{has_no_members, safe_state, make_command_result, make_error}

-- The values of a row by the names of their roles.
abbrev pub Row : Type 0
Row = List (Bytes × Json)

-- The getters of the controller, the profile, the graphics, the discovery and the diagnostics; those of
-- the profile and of the graphics by their names, if there is such an object.
pub record Window : Type 0 where
  pub connected : Bool
  pub reconnecting : Bool
  pub admin : Bool
  pub active_room_can_manage : Bool
  pub status_text : Bytes
  pub active_conversation_key : Bytes
  pub local_user_name : Bytes
  pub local_user_code : Bytes
  pub pending_connection_approvals : Items
  pub diagnostics_enabled : Bool
  pub log_directory_path : Bytes
  pub performance : Option (Bytes → Json)
  pub graphics : Option (Bytes → Json)
  pub saved : Bytes → Json
  pub scanning : Bool
  pub hosts_json : Items

-- The models that the controller hands out.
pub record Models : Type 0 where
  pub room_model : ℕ
  pub direct_message_model : ℕ
  pub message_model : ℕ
  pub member_model : ℕ
  pub active_message_model : ℕ

pub data Output : Type 0 where
  state_changed command_result bridge_error : Members → Output

abbrev pub max_serialized_rows : ℕ
max_serialized_rows = 500

-- The members of an object in the order in which they are inserted.
unfoldable pub insert_all : List (Bytes × Json) → Members → Members
insert_all [] ms = ms
insert_all ((key, v) ∷ entries) ms = insert_all entries (set_key key v ms)

abbrev pub json_object : List (Bytes × Json) → Members
json_object entries = insert_all entries no_members

abbrev pub rows_from : List Row → Items
rows_from [] = no_items
rows_from (row ∷ rows) = item (object (json_object row)) (rows_from rows)

unfoldable pub serialize_model : List Row → Items
serialize_model rows = rows_from (drop (length rows - max_serialized_rows) rows)

-- `key.mid(n)` if `key` starts with `prefix`, a text of n characters.
unfoldable pub after : Bytes → Bytes → Option Bytes
after prefix key =
    if same (take (length prefix) key) prefix then some (drop (length prefix) key) else none

abbrev pub room_from_conversation_key : Bytes → Bytes
room_from_conversation_key key = elim (after (codes "room:") key) [ some room ↦ room | none ↦ [] ]

abbrev pub build_active_conversation : Bytes → Members
build_active_conversation key = elim (after (codes "dm:") key) [
  | some code ↦ json_object (
      (codes "kind", text (codes "dm"))
      ∷ (codes "id", text code)
      ∷ (codes "title", text code)
      ∷ (codes "userCode", text code)
      ∷ [])
  | none ↦
      let room = room_from_conversation_key key in
      json_object (
        (codes "kind", text (codes "room"))
        ∷ (codes "id", text room)
        ∷ (codes "title", text room)
        ∷ [])
]

-- The status text of a window that has not connected, in UTF-8.
abbrev pub not_connected : Bytes
not_connected = 230 ∷ 156 ∷ 170 ∷ 232 ∷ 191 ∷ 158 ∷ 230 ∷ 142 ∷ 165 ∷ []

abbrev pub phase_of : Window → Members → Bytes
phase_of w last_error =
    if w.connected
    then codes "connected"
    else if w.reconnecting
    then codes "reconnecting"
    else if not (has_no_members last_error)
    then codes "error"
    else if not (same w.status_text not_connected)
    then codes "connecting"
    else codes "idle"

-- `value(...).toBool()`.
abbrev pub to_bool : Option Json → Bool
to_bool (some (boolean b)) = b
to_bool _ = false

abbrev pub connection_of : Window → Members → Members
connection_of w last_error =
    let connection = json_object (
      (codes "phase", text (phase_of w last_error))
      ∷ (codes "statusText", text w.status_text)
      ∷ (
        codes "retryable",
        boolean (not (has_no_members last_error) && to_bool (get (codes "retryable") last_error)),
      )
      ∷ []) in
    if not (has_no_members last_error)
    then set_key (codes "lastError") (object last_error) connection
    else connection

-- The named getters of an object that may be missing.
abbrev pub named : List Bytes → (Bytes → Json) → List (Bytes × Json)
named [] getter = []
named (name ∷ names) getter = (name, getter name) ∷ named names getter

abbrev pub getters : List Bytes → Option (Bytes → Json) → Members
getters names none = no_members
getters names (some getter) = json_object (named names getter)

abbrev pub performance_names : List Bytes
performance_names =
    codes "mode"
    ∷ codes "effectiveMode"
    ∷ codes "effectsEnabled"
    ∷ codes "animationsEnabled"
    ∷ codes "gradientsEnabled"
    ∷ codes "animationDurationScale"
    ∷ codes "observedFrameCount"
    ∷ codes "observedFps"
    ∷ codes "observedP95FrameMs"
    ∷ codes "observedMaxFrameMs"
    ∷ codes "automaticReason"
    ∷ []

abbrev pub graphics_names : List Bytes
graphics_names =
    codes "graphicsApi"
    ∷ codes "renderer"
    ∷ codes "vendor"
    ∷ codes "hardwareAcceleration"
    ∷ codes "softwareRendering"
    ∷ codes "refreshRate"
    ∷ codes "dpi"
    ∷ codes "resolution"
    ∷ []

abbrev pub saved_names : List Bytes
saved_names =
    codes "serverIp"
    ∷ codes "serverPort"
    ∷ codes "username"
    ∷ codes "userCode"
    ∷ codes "caFile"
    ∷ []

-- The object that `buildState` returns, with what it shows for each model.
unfoldable pub state_object : (ℕ → Items) → Models → Window → Members → Members → Members
state_object snapshot_for models w last_error host_defaults = json_object (
    (codes "connection", object (connection_of w last_error))
    ∷ (
      codes "identity",
      object (
          json_object (
            (codes "displayName", text w.local_user_name)
            ∷ (codes "userCode", text w.local_user_code)
            ∷ (codes "admin", boolean w.admin)
            ∷ [])),
    )
    ∷ (
      codes "navigation",
      object (
          json_object (
            (codes "page", text (if w.connected then codes "workspace" else codes "mode"))
            ∷ (
              codes "activeConversation",
              object (build_active_conversation w.active_conversation_key),
            )
            ∷ [])),
    )
    ∷ (codes "rooms", array (snapshot_for models.room_model))
    ∷ (codes "directMessages", array (snapshot_for models.direct_message_model))
    ∷ (codes "activeMessages", array (snapshot_for models.active_message_model))
    ∷ (codes "members", array (snapshot_for models.member_model))
    ∷ (
      codes "permissions",
      object (json_object ((codes "activeRoomCanManage", boolean w.active_room_can_manage) ∷ [])),
    )
    ∷ (codes "connectionApprovals", array w.pending_connection_approvals)
    ∷ (
      codes "diagnostics",
      object (
          json_object (
            (codes "enabled", boolean w.diagnostics_enabled)
            ∷ (codes "directory", text w.log_directory_path)
            ∷ [])),
    )
    ∷ (codes "performance", object (getters performance_names w.performance))
    ∷ (codes "graphics", object (getters graphics_names w.graphics))
    ∷ (codes "savedConnection", object (json_object (named saved_names w.saved)))
    ∷ (
      codes "lanDiscovery",
      object (
          json_object
            ((codes "scanning", boolean w.scanning) ∷ (codes "hosts", array w.hosts_json) ∷ [])),
    )
    ∷ (codes "hostDefaults", object host_defaults)
    ∷ [])
