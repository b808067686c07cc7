-- ===== src/Page/Steps.antt =====
-- The state of the bridge and the signals that reach it (client-cpp/gui/src/chat_bridge.cpp). A signal
-- comes with the values that its sender has from then on.
use cross_language_lan_chatr.Prelude.{
  ℕ, ◌+◌, Bool, true, false, not, ◌&&◌, ◌||◌, Option, none, some, List, [], ◌∷◌, if◌then◌else◌,
  ◌==◌, length, is_empty, map, Bytes, codes, same, ℤ, pos, ltb_ℤ,
}
use cross_language_lan_chatr.Prelude.Map.{lookup, insert, erase, nat_eq, bytes_eq}
use cross_language_lan_chatr.Json.{
  text, boolean, integer, array, object, items_of, Items, no_items, Members, no_members, set_key,
}
use cross_language_lan_chatr.Bridge.{safe_state, make_command_result, make_error}
use cross_language_lan_chatr.Page.{
  Row, Window, Models, Output, state_changed, command_result, bridge_error, serialize_model,
  state_object, json_object,
}

pub record State : Type 0 where
  pub window : Window
  pub models : Models
  -- The rows that each model has.
  pub rows : ℕ → List Row
  pub timer_active : Bool
  pub latest_state : Members
  pub host_defaults : Members
  pub last_error : Members
  pub pending_recalls : List (Bytes × Bytes)
  pub serialized_models : List (ℕ × Items)
  pub dirty_models : List ℕ
  pub connected_models : List ℕ
  pub last_serialized_model_count : ℕ
  pub state_build_count : ℕ
  -- What the page has been sent, the last first.
  pub outputs : List Output

unfoldable pub contains : ℕ → List ℕ → Bool
contains m [] = false
contains m (k ∷ ks) = k == m || contains m ks

unfoldable pub add : ℕ → List ℕ → List ℕ
add m ks = if contains m ks then ks else m ∷ ks

unfoldable pub remove : ℕ → List ℕ → List ℕ
remove m [] = []
remove m (k ∷ ks) = if k == m then remove m ks else k ∷ remove m ks

unfoldable pub schedule_state_update : State → State
schedule_state_update s = record s { timer_active = true }

abbrev pub emit : Output → State → State
emit output s = record s { outputs = output ∷ s.outputs }

-- The loop over `dirtyModels_`.
unfoldable pub serialize_dirty : (ℕ → List Row) → List ℕ → List (ℕ × Items) → List (ℕ × Items)
serialize_dirty rows [] cache = cache
serialize_dirty rows (m ∷ ms) cache =
    serialize_dirty rows ms (insert m (serialize_model (rows m)) cache)

-- `QHash::value`.
abbrev pub or_no_items : Option Items → Items
or_no_items none = no_items
or_no_items (some vs) = vs

abbrev pub snapshot_for : List (ℕ × Items) → ℕ → Items
snapshot_for cache m = or_no_items (lookup m cache)

unfoldable pub rebuild_state_snapshot : State → State
rebuild_state_snapshot s =
    let cache = serialize_dirty s.rows s.dirty_models s.serialized_models in
    record s {
      latest_state =
          safe_state
            (state_object (snapshot_for cache) s.models s.window s.last_error s.host_defaults);
      serialized_models = cache;
      dirty_models = [];
      last_serialized_model_count = length s.dirty_models;
      state_build_count = s.state_build_count + 1;
    }

unfoldable pub publish_state : State → State
publish_state s =
    let built = rebuild_state_snapshot s in emit (state_changed built.latest_state) built

unfoldable pub mark_model_dirty : ℕ → State → State
mark_model_dirty m s = schedule_state_update (record s { dirty_models = add m s.dirty_models })

unfoldable pub connect_model : ℕ → State → State
connect_model m s =
    if contains m s.connected_models
    then s
    else mark_model_dirty m (record s { connected_models = add m s.connected_models })

-- With `scheduleUpdate` false, as the constructor calls them.
unfoldable pub connect_first : ℕ → State → State
connect_first m s = if contains m s.connected_models then s else record s {
  connected_models = add m s.connected_models;
  dirty_models = add m s.dirty_models;
}

unfoldable pub handle_connection_error : Bytes → Bytes → Bool → State → State
handle_connection_error code reason retryable s =
    let error =
      make_error code (if is_empty reason then s.window.status_text else reason) retryable
        (codes "controller") [] in
    schedule_state_update (emit (bridge_error error) (record s { last_error = error }))

-- The result of a command, with the error if it has failed.
abbrev pub send_result : Bytes → Bool → Members → State → State
send_result id ok error s = emit (command_result (make_command_result id ok error)) s

abbrev pub or_else : Bytes → Bytes → Bytes
or_else s default = if is_empty s then default else s

-- With the entry of the command among those that wait.
unfoldable pub complete_waiting : Bytes → Bool → Bytes → State → Option Bytes → State
complete_waiting id ok reason s none = s
complete_waiting id ok reason s (some result_id) =
    let error =
      if not ok
      then make_error (codes "recall_rejected") (or_else reason (codes "Recall rejected")) false
          (codes "server") result_id
      else no_members in
    send_result result_id ok error (record s { pending_recalls = erase id s.pending_recalls })

abbrev pub complete_recall_command : Bytes → Bool → Bytes → State → State
complete_recall_command id ok reason s =
    complete_waiting id ok reason s (lookup id s.pending_recalls)

unfoldable pub mls_command_result : Bytes → Bool → Bytes → Bytes → State → State
mls_command_result id ok code message s =
    let error =
      if not ok
      then make_error (or_else code (codes "mls_operation_failed"))
          (or_else message (codes "MLS operation failed")) false (codes "mls") id
      else no_members in
    if is_empty id then s else send_result id ok error s

-- What `attachmentEvent` carries, the ciphertext in base64.
pub record AttachmentEvent : Type 0 where
  pub type : Bytes
  pub attachment_id : Bytes
  pub upload_id : Bytes
  pub command_id : Bytes
  pub chunk_size : ℤ
  pub chunk_index : ℤ
  pub ciphertext : Bytes
  pub cipher_sha256 : Bytes
  pub expires_at : Bytes
  pub received_indexes : List ℤ
  pub content : Bytes
  pub logical_size : ℤ

unfoldable pub attachment_payload : AttachmentEvent → Members
attachment_payload e =
    let payload = json_object (
      (codes "type", text e.type)
      ∷ (codes "attachmentId", text e.attachment_id)
      ∷ (codes "uploadId", text e.upload_id)
      ∷ (codes "chunkSize", integer e.chunk_size)
      ∷ (codes "chunkIndex", integer e.chunk_index)
      ∷ (codes "ciphertext", text e.ciphertext)
      ∷ (codes "cipherSha256", text e.cipher_sha256)
      ∷ (codes "expiresAt", text e.expires_at)
      ∷ (codes "receivedIndexes", array (items_of (map integer e.received_indexes)))
      ∷ (codes "content", text e.content)
      ∷ []) in
    let sized =
      if same e.type (codes "attachment.init") && ltb_ℤ (pos 0) e.logical_size
      then set_key (codes "logicalSize") (integer e.logical_size) payload
      else payload in
    if same e.type (codes "error")
    then set_key (codes "message") (text e.content)
        (set_key (codes "code") (text (codes "attachment_failed")) sized)
    else sized

abbrev pub attachment_event : AttachmentEvent → State → State
attachment_event e s =
    emit
      (command_result (
        json_object (
          (codes "type", text (codes "attachment.event"))
          ∷ (codes "id", text e.command_id)
          ∷ (codes "payload", object (attachment_payload e))
          ∷ [])))
      s

abbrev pub set_host_defaults : Members → State → State
set_host_defaults defaults s = rebuild_state_snapshot (record s { host_defaults = defaults })

abbrev pub host_defaults_of : Bytes → Bytes → Bytes → Bytes → Bool → Bytes → Members
host_defaults_of exe cert key db available reason = json_object (
    (codes "serverExe", text exe)
    ∷ (codes "certFile", text cert)
    ∷ (codes "keyFile", text key)
    ∷ (codes "dbFile", text db)
    ∷ (codes "available", boolean available)
    ∷ (codes "unavailableReason", text reason)
    ∷ [])

unfoldable pub connect_all : List ℕ → State → State
connect_all [] s = s
connect_all (m ∷ ms) s = connect_all ms (connect_first m s)

abbrev pub unconnected : Window → Models → (ℕ → List Row) → State
unconnected window models rows = record {
  window = window;
  models = models;
  rows = rows;
  timer_active = false;
  latest_state = no_members;
  host_defaults = no_members;
  last_error = no_members;
  pending_recalls = [];
  serialized_models = [];
  dirty_models = [];
  connected_models = [];
  last_serialized_model_count = 0;
  state_build_count = 0;
  outputs = [];
}

abbrev pub first_models : Models → List ℕ
first_models models =
    models.room_model ∷ models.direct_message_model ∷ models.message_model ∷ models.member_model
    ∷ models.active_message_model ∷ []

-- The constructor, where the objects around the bridge have these values.
unfoldable pub new_bridge : Window → Models → (ℕ → List Row) → State
new_bridge window models rows =
    rebuild_state_snapshot (connect_all (first_models models) (unconnected window models rows))

abbrev pub set_rows : ℕ → List Row → (ℕ → List Row) → ℕ → List Row
set_rows m changed rows k = if m == k then changed else rows k

-- `connectedChanged`.
abbrev pub connected_changed : Window → State → State
connected_changed w s =
    let told = record s { window = w } in
    schedule_state_update (if w.connected then record told { last_error = no_members } else told)

-- `connectionLost`.
abbrev pub connection_lost : Bytes → State → State
connection_lost reason s =
    if s.window.reconnecting
    then schedule_state_update (record s { last_error = no_members })
    else handle_connection_error (codes "connection_lost") reason true s

-- `activeMessageModelChanged`.
abbrev pub active_message_model_changed : ℕ → Window → State → State
active_message_model_changed m w s =
    let models = record s.models { active_message_model = m } in
    schedule_state_update (connect_model m (record s { window = w; models = models }))

-- A signal of a model that its rows have changed, which reaches the bridge if it is connected.
abbrev pub rows_changed : ℕ → List Row → State → State
rows_changed m changed s =
    let told = record s { rows = set_rows m changed s.rows } in
    if contains m s.connected_models then mark_model_dirty m told else told

-- `QObject::destroyed` of a model.
abbrev pub model_destroyed : ℕ → State → State
model_destroyed m s = record s {
  serialized_models = erase m s.serialized_models;
  dirty_models = remove m s.dirty_models;
  connected_models = remove m s.connected_models;
}
