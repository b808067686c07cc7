-- ===== src/Controller/Conversations.antt =====
-- What the window does with its conversations: the methods of client-cpp/gui/src/gui_chat_controller.cpp
-- that the page calls, and the branches of `handleMessage` about messages. A time of day, and the identity
-- of a new message, are arguments.
use cross_language_lan_chatr.Prelude.{
  ℕ, ◌+◌, Bool, true, false, not, ◌&&◌, ◌||◌, Option, none, some, List, [], ◌∷◌, ◌++◌,
  if◌then◌else◌, is_empty, drop, Bytes, codes, same, pos,
}
use cross_language_lan_chatr.ChatModel.{
  Model, Row, find_row, value_at, append, replace_rows, remove_rows_by_value, clear,
}
use cross_language_lan_chatr.Controller.{
  Values, join_room, request_history, send_chat_to_room, send_private, request_rooms, request_users,
  lobby, room_key, direct_key, is_room, is_direct, State, ask, ensure_conversation_model,
  change_model, append_to, message_row, set_unread, unread, find_code,
}

-- A message of the worker as `handleMessage` takes it.
pub record Incoming : Type 0 where
  pub message_id : Bytes
  pub username : Bytes
  pub user_code : Bytes
  pub content : Bytes
  pub room : Bytes
  pub target_user_code : Bytes
  pub delivery_state : Bytes
  -- A type other than `chat`.
  pub is_private : Bool

module _ (values : Values) (text_of_number : ℕ → Bytes) where
  open values use {variant, flag, to_flag, number, trimmed, same_case}

  abbrev pub request_active_history : Bytes → State values → State values
  request_active_history query s =
      if not s.connected || s.history_loading
      then s
      else ask values
          (if is_direct s.active
            then request_history [] (drop 3 s.active) true query
            else request_history (drop 5 s.active) [] false query)
          (record s { history_loading = true })

  abbrev pub room_row : Bytes → State values → Option ℕ
  room_row room s = find_row variant s.room_model.rows (codes "roomName") (variant.of_text room)

  abbrev pub code_row : Bytes → State values → Option ℕ
  code_row code s = find_code values s.direct_message_model.rows code

  abbrev pub clear_unread : Option ℕ → Model variant → Model variant
  clear_unread none m = m
  clear_unread (some row) m = set_unread values row 0 m

  abbrev pub manages : Option ℕ → Model variant → Bool
  manages none m = false
  manages (some row) m = to_flag (value_at variant m (pos row) (codes "canManage"))

  -- The conversation that is shown from now on.
  abbrev pub show : Bytes → State values → State values
  show key s =
      let (i, t) = ensure_conversation_model values key s in
      record t { message_model = i; active = key }

  abbrev pub join : Bytes → State values → State values
  join room s =
      if same_case s.joined_room room
      then s
      else record (ask values (join_room room) s) { joined_room = room }

  -- The rights in a room and its unread counter.
  abbrev pub see_room : Bytes → State values → State values
  see_room room s =
      let row = room_row room s in
      record s {
        active_room_can_manage = manages row s.room_model;
        room_model = clear_unread row s.room_model;
      }

  abbrev pub see_direct : Bytes → State values → State values
  see_direct code s = record s {
    direct_message_model = clear_unread (code_row code s) s.direct_message_model;
  }

  -- A conversation with no search in it.
  abbrev pub show_all : Bytes → State values → State values
  show_all key s = show key (record s { history_search_query = [] })

  unfoldable pub do_select_room : Bytes → State values → State values
  do_select_room room s =
      let seen = see_room room (show_all (room_key room) s) in
      record (if seen.connected then request_active_history [] (join room seen) else seen) {
        reconnecting = false;
      }

  unfoldable pub do_select_direct : Bytes → State values → State values
  do_select_direct code s =
      let seen = see_direct code (show_all (direct_key code) s) in
      if seen.connected then request_active_history [] seen else seen

  abbrev pub add_direct : Bytes → Bytes → ℕ → State values → State values
  add_direct name code n s = record s {
    direct_message_model = append variant s.direct_message_model (
        (codes "displayName", variant.of_text name)
        ∷ (codes "userCode", variant.of_text code)
        ∷ (codes "unreadCount", number n)
        ∷ []);
  }

  abbrev pub add_missing : Option ℕ → Bytes → Bytes → State values → State values
  add_missing none name code s = add_direct name code 0 s
  add_missing (some row) name code s = s

  unfoldable pub do_open_private : Bytes → Bytes → State values → State values
  do_open_private name code s =
      if is_empty (trimmed code) || same_case code s.local_user_code
      then s
      else do_select_direct code (add_missing (code_row code s) name code s)

  abbrev pub bump : ℕ → Model variant → Model variant
  bump row m = set_unread values row (unread values row m + 1) m

  abbrev pub bump_room : Option ℕ → State values → State values
  bump_room none s = s
  bump_room (some row) s = record s { room_model = bump row s.room_model }

  abbrev pub bump_direct : Option ℕ → Bytes → Bytes → State values → State values
  bump_direct none name code s = add_direct name code 1 s
  bump_direct (some row) name code s = record s {
    direct_message_model = bump row s.direct_message_model;
  }

  unfoldable pub increment_unread : Bytes → Bytes → Bytes → State values → State values
  increment_unread key name code s =
      if is_room key
      then bump_room (room_row (drop 5 key) s) s
      else bump_direct (code_row (drop 3 key) s) name code s

  unfoldable pub do_send_room : Bytes → Bytes → Bytes → Bytes → State values → State values
  do_send_room content room id time s =
      let target = if is_empty (trimmed room) then lobby else trimmed room in
      if is_empty (trimmed content)
      then s
      else ask values (send_chat_to_room (trimmed content) target id) (
          append_to values (room_key target)
            (message_row values id s.local_user_name s.local_user_code time (trimmed content) true
              false (codes "queued"))
            s)

  unfoldable pub do_send_private : Bytes → Bytes → Bytes → Bytes → State values → State values
  do_send_private content code id time s =
      if is_empty (trimmed content) || is_empty (trimmed code)
      then s
      else ask values (send_private (trimmed content) (trimmed code) id) (
          append_to values (direct_key (trimmed code))
            (message_row values id s.local_user_name s.local_user_code time (trimmed content) true
              false (codes "queued"))
            s)

  abbrev pub is_self : Incoming → State values → Bool
  is_self m s = not (is_empty s.local_user_code) && same_case m.user_code s.local_user_code

  abbrev pub conversation_of : Incoming → State values → Bytes
  conversation_of m s =
      if m.is_private
      then direct_key (if is_self m s then m.target_user_code else m.user_code)
      else room_key (if is_empty m.room then lobby else m.room)

  -- `unknown` is the name that is shown for a user without a name and a code.
  abbrev pub shown_name : Bytes → Incoming → State values → Bytes
  shown_name unknown m s =
      if is_empty (trimmed m.username)
      then (if is_self m s
          then s.local_user_name
          else if is_empty (trimmed m.user_code)
          then unknown
          else m.user_code)
      else m.username

  abbrev pub identified : Incoming → State values → Bytes × State values
  identified m s =
      if is_empty m.message_id
      then (
        codes "local-" ++ text_of_number (s.local_message_counter + 1),
        record s { local_message_counter = s.local_message_counter + 1 },
      )
      else (m.message_id, s)

  unfoldable pub do_receive_chat : Bytes → Incoming → Bytes → State values → State values
  do_receive_chat unknown m time s =
      let (id, counted) = identified m s in
      let key = conversation_of m s in
      let delivery = if is_empty m.delivery_state then codes "sent" else m.delivery_state in
      let row =
        message_row values id (shown_name unknown m s) m.user_code time m.content (is_self m s)
          false delivery in
      let appended = append_to values key row counted in
      if not (is_self m s) && not (same key appended.active)
      then increment_unread key m.username m.user_code appended
      else appended

  abbrev pub system_row : Bytes → Bytes → Row variant
  system_row content time = message_row values [] [] [] time content false true []

  abbrev pub do_receive_system : Option Bytes → Bytes → Bytes → State values → State values
  do_receive_system none content time s =
      change_model values s.message_model (λ m. append variant m (system_row content time)) s
  do_receive_system (some room) content time s =
      append_to values (room_key room) (system_row content time) s

  -- A change of every model in the cache.
  abbrev pub change_all :
      (Model variant → Model variant) → List (Bytes × ℕ) → State values → State values
  change_all f [] s = s
  change_all f ((key, i) ∷ models) s = change_all f models (change_model values i f s)

  unfoldable pub do_remove : Bytes → State values → State values
  do_remove id s =
      if is_empty id
      then s
      else change_all (λ m. remove_rows_by_value variant m (codes "messageId") (variant.of_text id))
          s.models s

  -- The lists without their rows, and the lobby as the conversation that is open.
  abbrev pub emptied : State values → State values
  emptied s =
      record (change_all (clear variant) s.models (record s {
        room_model = replace_rows variant s.room_model (
            ((codes "roomName", variant.of_text lobby)
              ∷ (codes "memberCount", number 0)
              ∷ (codes "unreadCount", number 0)
              ∷ [])
            ∷ []);
        direct_message_model = replace_rows variant s.direct_message_model [];
      })) { active = room_key lobby; joined_room = lobby }

  -- The list of the members is left out.
  unfoldable pub do_reset : State values → State values
  do_reset s =
      let (i, t) = ensure_conversation_model values (room_key lobby) (emptied s) in
      record t { message_model = i; history_loading = false; history_search_query = [] }

  -- The texts of the status line are left out.
  abbrev pub online : Bool → State values → State values
  online is_admin s = ask values request_users (
      ask values request_rooms (record (if s.reconnecting then s else do_reset s) {
        reconnecting = false;
        connected = true;
        admin = is_admin;
      }))

  unfoldable pub do_connected : Bool → State values → State values
  do_connected is_admin s = request_active_history [] (online is_admin s)
