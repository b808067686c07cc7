-- ===== src/Controller/Cached.antt =====
-- The model that the view shows is never deleted (client-cpp/gui/src/gui_chat_controller.cpp).
pub mod Basics
pub mod Replies
use cross_language_lan_chatr.Prelude.{
  ℕ, refl, ap, ◌∙◌, Bool, true, false, not, ◌&&◌, ◌||◌, Option, none, some, List, [], ◌∷◌,
  if◌then◌else◌, inl, inr, Bool-cases, is_empty, drop, Bytes, codes, same,
}
use cross_language_lan_chatr.Prelude.Map.{lookup, bytes_eq}
use cross_language_lan_chatr.ChatModel.{Model, Row, remove_rows_by_value}
use cross_language_lan_chatr.Controller.{
  Values, State, ensure_conversation_model, change_model, append_to, room_key, direct_key, lobby,
  is_room, message_row,
}
use cross_language_lan_chatr.Controller.Conversations.{
  Incoming, request_active_history, show_all, emptied, online, add_missing, code_row, room_row,
  bump_room, bump_direct, conversation_of, identified, shown_name, is_self, see_room, see_direct,
  join, do_select_room, do_select_direct, do_open_private, do_send_room, do_send_private,
  do_receive_chat, do_receive_system, do_remove, do_reset, do_connected, increment_unread,
  change_all,
}
use cross_language_lan_chatr.Controller.Replies.{
  mark, row_of, may_retry, retry_in, can_recall_message, do_search, retry_message, recall_message,
  do_receipt, do_error, do_failed, do_approval_request, do_approval_result, do_history,
  do_connection_failed,
}
use cross_language_lan_chatr.Controller.{Approval}
use cross_language_lan_chatr.ChatModel.{Row}
use cross_language_lan_chatr.Controller.Events.{
  search_active_history, retry, recall, receive_receipt, receive_error, delivery_failed,
  message_recalled, receive_login_ok, approval_request, approval_result, handle_history,
  handle_connection_failed, Event, select_room, select_direct_message, remove_local_message,
  open_private_chat, send_room_message, send_private_message, receive_chat, receive_system,
  handle_connected, handle_connection_lost, disconnect, new_controller, step, run,
}
use cross_language_lan_chatr.Controller.Trimmed.{Shown, ensure-Ensured}
use cross_language_lan_chatr.Controller.Cached.Basics.{
  append_to-Shown, change_all-Shown, choice-Shown, request-Shown,
}
use cross_language_lan_chatr.Controller.Cached.Replies.{
  approval_request-Shown, approval_result-Shown, error-Shown, failed-Shown, history-Shown,
  pair-Shown, recall-Shown, receipt-Shown, retry-Shown, retry_in-Shown, search-Shown,
}

module _ (values : Values) (text_of_number : ℕ → Bytes) where
  join-Shown :
      (room : Bytes) (s : State values)
      → Shown values s
      → Shown values (join values text_of_number room s)
  join-Shown room s h =
      choice-Shown values text_of_number (values.same_case s.joined_room room) s _ h h

  show_all-Shown :
      (key : Bytes) (s : State values) → Shown values (show_all values text_of_number key s)
  show_all-Shown key s = (ensure-Ensured values key (record s { history_search_query = [] })).cached

  select_room-Shown :
      (room : Bytes) (s : State values) → Shown values (do_select_room values text_of_number room s)
  unfolding do_select_room
  select_room-Shown room s =
      let seen =
        see_room values text_of_number room (show_all values text_of_number (room_key room) s) in
      let h : Shown values seen = show_all-Shown (room_key room) s in
      choice-Shown values text_of_number seen.connected _ seen
        (request-Shown values text_of_number [] (join values text_of_number room seen)
          (join-Shown room seen h))
        h

  select_direct-Shown :
      (code : Bytes) (s : State values)
      → Shown values (do_select_direct values text_of_number code s)
  unfolding do_select_direct
  select_direct-Shown code s =
      let seen =
        see_direct values text_of_number code
          (show_all values text_of_number (direct_key code) s) in
      let h : Shown values seen = show_all-Shown (direct_key code) s in
      choice-Shown values text_of_number seen.connected _ seen
        (request-Shown values text_of_number [] seen h) h

  open_private-Shown :
      (name code : Bytes) (s : State values)
      → Shown values s
      → Shown values (do_open_private values text_of_number name code s)
  unfolding do_open_private
  open_private-Shown name code s h =
      choice-Shown values text_of_number
        (is_empty (values.trimmed code) || values.same_case code s.local_user_code) s _ h
        (select_direct-Shown code
          (add_missing values text_of_number (code_row values text_of_number code s) name code s))

  increment_unread-Shown :
      (key name code : Bytes) (s : State values)
      → Shown values s
      → Shown values (increment_unread values text_of_number key name code s)
  unfolding increment_unread
  increment_unread-Shown key name code s h =
      choice-Shown values text_of_number (is_room key) _ _
        (room (room_row values text_of_number (drop 5 key) s))
        (direct (code_row values text_of_number (drop 3 key) s))
    where
      room : (o : Option ℕ) → Shown values (bump_room values text_of_number o s)
      room none = h
      room (some row) = h

      direct : (o : Option ℕ) → Shown values (bump_direct values text_of_number o name code s)
      direct none = h
      direct (some row) = h

  send_room-Shown :
      (content room id time : Bytes) (s : State values)
      → Shown values s
      → Shown values (do_send_room values text_of_number content room id time s)
  unfolding do_send_room
  send_room-Shown content room id time s h =
      choice-Shown values text_of_number (is_empty (values.trimmed content)) s _ h (
        append_to-Shown values text_of_number
          (room_key (if is_empty (values.trimmed room) then lobby else values.trimmed room)) [] s h)

  send_private-Shown :
      (content code id time : Bytes) (s : State values)
      → Shown values s
      → Shown values (do_send_private values text_of_number content code id time s)
  unfolding do_send_private
  send_private-Shown content code id time s h =
      choice-Shown values text_of_number
        (is_empty (values.trimmed content) || is_empty (values.trimmed code)) s _ h
        (append_to-Shown values text_of_number (direct_key (values.trimmed code)) [] s h)

  identified-Shown :
      (m : Incoming) (s : State values)
      → Shown values s
      → Shown values (identified values text_of_number m s).1
  identified-Shown m s h = elim (Bool-cases (is_empty m.message_id)) [
    | inl unnamed ↦ rw unnamed h
    | inr named ↦ rw named h
  ]

  receive_chat-Shown :
      (unknown : Bytes) (m : Incoming) (time : Bytes) (s : State values)
      → Shown values s
      → Shown values (do_receive_chat values text_of_number unknown m time s)
  unfolding do_receive_chat
  receive_chat-Shown unknown m time s h =
      let key = conversation_of values text_of_number m s in
      let counted = identified values text_of_number m s in
      let delivery = if is_empty m.delivery_state then codes "sent" else m.delivery_state in
      let row =
        message_row values counted.0 (shown_name values text_of_number unknown m s) m.user_code time
          m.content (is_self values text_of_number m s) false delivery in
      let appended = append_to values key row counted.1 in
      let k : Shown values appended =
        append_to-Shown values text_of_number key row counted.1 (identified-Shown m s h) in
      choice-Shown values text_of_number
        (not (is_self values text_of_number m s) && not (same key appended.active)) _ appended
        (increment_unread-Shown key m.username m.user_code appended k) k

  receive_system-Shown :
      (room : Option Bytes) (content time : Bytes) (s : State values)
      → Shown values s
      → Shown values (do_receive_system values text_of_number room content time s)
  receive_system-Shown none content time s h = h
  receive_system-Shown (some room) content time s h =
      append_to-Shown values text_of_number (room_key room) [] s h

  remove-Shown :
      (id : Bytes) (s : State values)
      → Shown values s
      → Shown values (do_remove values text_of_number id s)
  unfolding do_remove
  remove-Shown id s h =
      let clean = λ (m : Model values.variant).
        remove_rows_by_value values.variant m (codes "messageId") (values.variant.of_text id) in
      choice-Shown values text_of_number (is_empty id) s
        (change_all values text_of_number clean s.models s) h
        (change_all-Shown values text_of_number clean s.models s h)

  reset-Shown : (s : State values) → Shown values (do_reset values text_of_number s)
  unfolding do_reset
  reset-Shown s =
      let lobbied = ensure-Ensured values (room_key lobby) (emptied values text_of_number s) in
      ap
        (λ a.
          lookup a
            (ensure_conversation_model values (room_key lobby)
              (emptied values text_of_number s)).1.models)
        lobbied.active
      ∙ lobbied.cached

  connected-Shown :
      (is_admin : Bool) (s : State values)
      → Shown values s
      → Shown values (do_connected values text_of_number is_admin s)
  unfolding do_connected
  connected-Shown is_admin s h =
      request-Shown values text_of_number [] (online values text_of_number is_admin s) (
        choice-Shown values text_of_number s.reconnecting s (do_reset values text_of_number s) h
          (reset-Shown s))

  step-Shown :
      (unknown : Bytes) (event : Event values) (s : State values)
      → Shown values s
      → Shown values (step values text_of_number unknown event s)
  unfolding step do_connection_failed
  step-Shown unknown (select_room room) s h = select_room-Shown room s
  step-Shown unknown (select_direct_message code) s h = select_direct-Shown code s
  step-Shown unknown (open_private_chat name code) s h = open_private-Shown name code s h
  step-Shown unknown (send_room_message content room id time) s h =
      send_room-Shown content room id time s h
  step-Shown unknown (send_private_message content code id time) s h =
      send_private-Shown content code id time s h
  step-Shown unknown (receive_chat m time) s h = receive_chat-Shown unknown m time s h
  step-Shown unknown (receive_system room content time) s h =
      receive_system-Shown room content time s h
  step-Shown unknown (remove_local_message id) s h = remove-Shown id s h
  step-Shown unknown (handle_connected is_admin) s h = connected-Shown is_admin s h
  step-Shown unknown (search_active_history query) s h =
      search-Shown values text_of_number query s h
  step-Shown unknown (retry id) s h = retry-Shown values text_of_number id s h
  step-Shown unknown (recall id command) s h = recall-Shown values text_of_number id command s h
  step-Shown unknown (receive_receipt id content delivery) s h =
      receipt-Shown values text_of_number id content delivery s h
  step-Shown unknown (receive_error id) s h = error-Shown values text_of_number id s h
  step-Shown unknown (delivery_failed id) s h = failed-Shown values text_of_number id s h
  step-Shown unknown (message_recalled id) s h = remove-Shown id s h
  step-Shown unknown (receive_login_ok is_admin) s h = h
  step-Shown unknown (approval_request a) s h = approval_request-Shown values text_of_number a s h
  step-Shown unknown (approval_result id content shown time) s h =
      approval_result-Shown values text_of_number id content shown time s h
  step-Shown unknown (handle_history time_of room peer private details search) s h =
      history-Shown values text_of_number time_of room peer private details search s h
  step-Shown unknown (handle_connection_failed status time) s h = h
  step-Shown unknown handle_connection_lost s h = h
  step-Shown unknown disconnect s h = h

  run-Shown :
      (unknown : Bytes) (events : List (Event values)) (s : State values)
      → Shown values s
      → Shown values (run values text_of_number unknown events s)
  unfolding run
  run-Shown unknown [] s h = h
  run-Shown unknown (event ∷ events) s h = run-Shown unknown events _ (step-Shown unknown event s h)

  -- Whatever the user and the worker do with a new window, in any order, the model that the view shows is
  -- the one that is cached for the open conversation, so trimming the cache has never deleted it.
  pub run-new-Shown :
      (rooms directs : Model values.variant) (name code unknown : Bytes)
      (events : List (Event values))
      → Shown values (
          run values text_of_number unknown events
            (new_controller values text_of_number rooms directs name code))
  unfolding lookup same
  run-new-Shown rooms directs name code unknown events =
      run-Shown unknown events (new_controller values text_of_number rooms directs name code) refl
