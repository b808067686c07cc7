-- ===== src/Controller.antt =====
-- The conversations of the window: client-cpp/gui/src/gui_chat_controller.cpp. A conversation's list
-- model is an object with a number: `models` is the cache of the objects that have not been deleted, by
-- conversation, `contents` what an object holds, and `message_model` the object that the view shows. A
-- call of the worker is a `Request`; signals to the views are left out. What the code asks of Qt's
-- values and strings is the parameter `Values`.
pub mod Conversations
pub mod Replies
pub mod Events
pub mod Trimmed
pub mod Cached
pub mod Bounded
mod Tests
use cross_language_lan_chatr.Prelude.{
  ℕ, zero, suc, ◌+◌, ◌-◌, ◌%◌, ◌^◌, Bool, true, false, not, ◌&&◌, ◌||◌, Option, none, some, List,
  [], ◌∷◌, ◌++◌, if◌then◌else◌, ltb, ◌==◌, length, is_empty, take, drop, Bytes, codes, same, pos,
}
use cross_language_lan_chatr.Prelude.Map.{lookup, insert, erase, bytes_eq}
use cross_language_lan_chatr.ChatModel.{
  Variant, Model, Row, value, make_model, find_row, value_at, update_row, append, replace_rows,
  remove_rows_by_value,
}

pub record Values : Type 1 where
  pub variant : Variant
  pub flag : Bool → variant.Value
  pub to_flag : variant.Value → Bool
  pub number : ℕ → variant.Value
  pub to_number : variant.Value → ℕ
  pub trimmed : Bytes → Bytes
  -- `compare` without regard to case.
  pub same_case : Bytes → Bytes → Bool

pub data Request : Type 0 where
  join_room : Bytes → Request
  -- Room, peer, whether it is private, and the text to search for.
  request_history : Bytes → Bytes → Bool → Bytes → Request
  send_chat_to_room send_private : Bytes → Bytes → Bytes → Request
  -- Action, target, message and command.
  send_admin_action : Bytes → Bytes → Bytes → Bytes → Request
  request_rooms request_users disconnect_from_server schedule_reconnect : Request

pub record Approval : Type 0 where
  pub id : Bytes
  pub display_name : Bytes
  pub user_code : Bytes
  pub requested_at : Bytes

abbrev pub message_roles : List Bytes
message_roles =
    codes "messageId"
    ∷ codes "displayName"
    ∷ codes "userCode"
    ∷ codes "time"
    ∷ codes "content"
    ∷ codes "selfMessage"
    ∷ codes "systemMessage"
    ∷ codes "deliveryState"
    ∷ codes "attachment"
    ∷ []

abbrev pub max_cached_conversation_models : ℕ
max_cached_conversation_models = 8

-- The largest `quint64`.
abbrev pub max_order : ℕ
max_order = 2 ^ 64 - 1

abbrev pub lobby : Bytes
lobby = codes "lobby"

abbrev pub room_key : Bytes → Bytes
room_key room = codes "room:" ++ room

abbrev pub direct_key : Bytes → Bytes
direct_key code = codes "dm:" ++ code

abbrev pub is_room : Bytes → Bool
is_room key = same (take 5 key) (codes "room:")

abbrev pub is_direct : Bytes → Bool
is_direct key = same (take 3 key) (codes "dm:")

abbrev pub place : Option ℕ → ℕ
place none = 0
place (some n) = n

abbrev pub order_of : List (Bytes × ℕ) → Bytes → ℕ
order_of order key = place (lookup key order)

module _ (values : Values) where
  open values use {variant, flag, to_flag, number, to_number, trimmed, same_case}

  pub record State : Type 0 where
    pub models : List (Bytes × ℕ)
    pub contents : ℕ → Model variant
    pub next : ℕ
    pub order : List (Bytes × ℕ)
    pub sequence : ℕ
    pub message_model : ℕ
    pub active : Bytes
    pub room_model : Model variant
    pub direct_message_model : Model variant
    pub connected : Bool
    pub reconnecting : Bool
    pub admin : Bool
    pub pending_connection_approvals : List Approval
    pub joined_room : Bytes
    pub history_loading : Bool
    pub history_search_query : Bytes
    pub active_room_can_manage : Bool
    pub local_user_name : Bytes
    pub local_user_code : Bytes
    pub local_message_counter : ℕ
    pub requests : List Request

  abbrev pub ask : Request → State → State
  ask request s = record s { requests = s.requests ++ request ∷ [] }

  -- One round of the search for the conversation that was used the longest time ago.
  abbrev pub older : Bytes → Bytes → List (Bytes × ℕ) → Bytes → Bytes × ℕ → Bytes × ℕ
  older active kept order key best =
      if same key active || same key kept
      then best
      else if ltb (order_of order key) best.1
      then (key, order_of order key)
      else best

  unfoldable pub oldest :
      Bytes → Bytes → List (Bytes × ℕ) → List (Bytes × ℕ) → Bytes × ℕ → Bytes × ℕ
  oldest active kept order [] best = best
  oldest active kept order ((key, i) ∷ models) best =
      oldest active kept order models (older active kept order key best)

  abbrev pub victim : Bytes → State → Bytes
  victim kept s = (oldest s.active kept s.order s.models ([], max_order)).0

  abbrev pub forget : Bytes → State → State
  forget key s = record s { models = erase key s.models; order = erase key s.order }

  -- At most as many rounds as there are models.
  unfoldable pub trim_loop : ℕ → Bytes → State → State
  trim_loop zero kept s = s
  trim_loop (suc fuel) kept s =
      let rest = trim_loop fuel kept (forget (victim kept s) s) in
      if not (ltb max_cached_conversation_models (length s.models)) || is_empty (victim kept s)
      then s
      else rest

  abbrev pub trim_conversation_model_cache : Bytes → State → State
  trim_conversation_model_cache kept s = trim_loop (length s.models) kept s

  abbrev pub used : Bytes → State → State
  used key s =
      let now = (s.sequence + 1) % 2 ^ 64 in
      record s { sequence = now; order = insert key now s.order }

  abbrev pub update : (ℕ → Model variant) → ℕ → Model variant → ℕ → Model variant
  update f i m j = if j == i then m else f j

  abbrev pub created : Bytes → State → State
  created key s = record s {
    models = insert key s.next s.models;
    contents = update s.contents s.next (make_model variant message_roles);
    next = suc s.next;
  }

  abbrev pub found_or_created : Bytes → State → Option ℕ → ℕ × State
  found_or_created key s (some i) = (i, used key s)
  found_or_created key s none =
      (s.next, trim_conversation_model_cache key (used key (created key s)))

  unfoldable pub ensure_conversation_model : Bytes → State → ℕ × State
  ensure_conversation_model key s = found_or_created key s (lookup key s.models)

  abbrev pub change_model : ℕ → (Model variant → Model variant) → State → State
  change_model i f s = record s { contents = update s.contents i (f (s.contents i)) }

  abbrev pub append_to : Bytes → Row variant → State → State
  append_to key row s =
      let (i, t) = ensure_conversation_model key s in change_model i (λ m. append variant m row) t

  -- A row with the text and the flags of a message.
  abbrev pub message_row : Bytes → Bytes → Bytes → Bytes → Bytes → Bool → Bool → Bytes → Row variant
  message_row id name code time content self system delivery =
      (codes "messageId", variant.of_text id)
      ∷ (codes "displayName", variant.of_text name)
      ∷ (codes "userCode", variant.of_text code)
      ∷ (codes "time", variant.of_text time)
      ∷ (codes "content", variant.of_text content)
      ∷ (codes "selfMessage", flag self)
      ∷ (codes "systemMessage", flag system)
      ∷ (codes "deliveryState", variant.of_text delivery)
      ∷ []

  abbrev pub set_unread : ℕ → ℕ → Model variant → Model variant
  set_unread row n m = update_row variant m (pos row) ((codes "unreadCount", number n) ∷ [])

  abbrev pub unread : ℕ → Model variant → ℕ
  unread row m = to_number (value_at variant m (pos row) (codes "unreadCount"))

  -- The row of a user code, without regard to case.
  unfoldable pub find_code : List (Row variant) → Bytes → Option ℕ
  find_code [] code = none
  find_code (row ∷ rows) code =
      let rest = find_code rows code in
      if same_case (variant.to_text (value variant (codes "userCode") row)) code
      then some 0
      else elim rest [ none ↦ none | some i ↦ some (i + 1) ]
