-- ===== src/Controller/Replies.antt =====
-- What else the worker tells the window: the other branches of `handleMessage`, histories and failed
-- deliveries, and what the user does with a message (client-cpp/gui/src/gui_chat_controller.cpp). The
-- texts of the status line are left out, and the time that is shown for a moment is a parameter.
use cross_language_lan_chatr.Prelude.{
  ℕ, Bool, true, false, not, ◌&&◌, ◌||◌, Option, none, some, List, [], ◌∷◌, if◌then◌else◌, is_empty,
  drop, Bytes, codes, same, pos,
}
use cross_language_lan_chatr.Prelude.Map.{lookup, bytes_eq}
use cross_language_lan_chatr.ChatModel.{
  Model, Row, value, find_row, value_at, update_row, prepend_rows,
}
use cross_language_lan_chatr.Controller.{
  Values, Approval, send_chat_to_room, send_private, send_admin_action, room_key, direct_key,
  is_direct, State, ask, change_model, message_row,
}
use cross_language_lan_chatr.Controller.Conversations.{
  request_active_history, change_all, do_receive_system,
}

module _ (values : Values) (text_of_number : ℕ → Bytes) where
  open values use {variant, flag, to_flag, same_case}

  abbrev pub row_of : Bytes → Model variant → Option ℕ
  row_of id m = find_row variant m.rows (codes "messageId") (variant.of_text id)

  abbrev pub mark_row : Option ℕ → Bytes → Model variant → Model variant
  mark_row none delivery m = m
  mark_row (some row) delivery m =
      update_row variant m (pos row) ((codes "deliveryState", variant.of_text delivery) ∷ [])

  abbrev pub mark : Bytes → Bytes → Model variant → Model variant
  mark id delivery m = mark_row (row_of id m) delivery m

  unfoldable pub do_receipt : Bytes → Bytes → Bytes → State values → State values
  do_receipt id content delivery s =
      let state = if is_empty delivery then content else delivery in
      if is_empty id || (not (same state (codes "sent")) && not (same state (codes "delivered")))
      then s
      else change_all values text_of_number (mark id state) s.models s

  unfoldable pub do_failed : Bytes → State values → State values
  do_failed id s = change_all values text_of_number (mark id (codes "failed")) s.models s

  unfoldable pub do_error : Bytes → State values → State values
  do_error id s = if is_empty id then s else do_failed id s

  -- The first request of a connection with the identity is replaced.
  unfoldable pub put_approval : Approval → List Approval → List Approval
  put_approval a [] = a ∷ []
  put_approval a (b ∷ bs) =
      let rest = put_approval a bs in if same b.id a.id then a ∷ bs else b ∷ rest

  unfoldable pub remove_approvals : Bytes → List Approval → List Approval
  remove_approvals id [] = []
  remove_approvals id (b ∷ bs) =
      let rest = remove_approvals id bs in if same b.id id then rest else b ∷ rest

  unfoldable pub do_approval_request : Approval → State values → State values
  do_approval_request a s =
      if is_empty a.id || is_empty a.display_name || is_empty a.user_code
      then s
      else record s { pending_connection_approvals = put_approval a s.pending_connection_approvals }

  -- With the texts for an approval and for a denial.
  unfoldable pub do_approval_result :
      Bytes → Bytes → Bytes × Bytes → Bytes → State values → State values
  do_approval_result id content texts time s =
      let removed = record s {
        pending_connection_approvals = remove_approvals id s.pending_connection_approvals;
      } in
      if same content (codes "approved")
      then do_receive_system values text_of_number none texts.0 time removed
      else if same content (codes "denied")
      then do_receive_system values text_of_number none texts.1 time removed
      else removed

  -- With the text of the status line.
  unfoldable pub do_connection_failed : Bytes → Bytes → State values → State values
  do_connection_failed status time s =
      do_receive_system values text_of_number none status time
        (record s { connected = false; admin = false })

  -- A value of a message in a history is a string.
  abbrev pub text_at : Bytes → Row variant → Bytes
  text_at key detail = variant.to_text (value variant key detail)

  abbrev pub delivery_of : Option variant.Value → Bytes
  delivery_of none = codes "sent"
  delivery_of (some v) = variant.to_text v

  abbrev pub is_known : Option ℕ → Bool
  is_known none = false
  is_known (some row) = true

  abbrev pub history_row : (Bytes → Bytes) → Row variant → State values → Row variant
  history_row time_of detail s =
      message_row values (text_at (codes "messageId") detail) (text_at (codes "displayName") detail)
        (text_at (codes "userCode") detail) (time_of (text_at (codes "createdAt") detail))
        (text_at (codes "content") detail)
        (same_case (text_at (codes "userCode") detail) s.local_user_code) false
        (delivery_of (lookup (codes "deliveryState") detail))

  -- The messages that the model does not have yet.
  unfoldable pub history_rows :
      (Bytes → Bytes) → List (Row variant) → State values → List (Row variant)
  history_rows time_of [] s = []
  history_rows time_of (detail ∷ details) s =
      let rest = history_rows time_of details s in
      let id = text_at (codes "messageId") detail in
      if is_empty id || is_known (row_of id (s.contents s.message_model))
      then rest
      else history_row time_of detail s ∷ rest

  -- The room or the peer, the messages and the text that was searched for.
  unfoldable pub do_history :
      (Bytes → Bytes)
      → Bytes
      → Bytes
      → Bool
      → List (Row variant)
      → Bytes
      → State values
      → State values
  do_history time_of room peer private details search s =
      let loaded = record s { history_loading = false } in
      let expected = if private then direct_key peer else room_key room in
      if not (same_case expected s.active)
      then loaded
      else if not (same search s.history_search_query)
      then request_active_history values text_of_number s.history_search_query loaded
      else change_model values s.message_model
          (λ m. prepend_rows variant m (history_rows time_of details s)) loaded

  unfoldable pub do_search : (Bytes → Bytes) → Bytes → State values → State values
  do_search trimmed query s =
      let searching = record s { history_search_query = trimmed query } in
      if not s.history_loading
      then request_active_history values text_of_number (trimmed query) searching
      else searching

  abbrev pub may_retry : Option ℕ → Model variant → Bool
  may_retry none m = false
  may_retry (some row) m =
      to_flag (value_at variant m (pos row) (codes "selfMessage"))
      && same (variant.to_text (value_at variant m (pos row) (codes "deliveryState")))
          (codes "failed")

  abbrev pub content_at : Option ℕ → Model variant → Bytes
  content_at none m = []
  content_at (some row) m = variant.to_text (value_at variant m (pos row) (codes "content"))

  unfoldable pub retry_in : Bytes → List (Bytes × ℕ) → State values → Bool × State values
  retry_in id [] s = (false, s)
  retry_in id ((key, i) ∷ models) s =
      let rest = retry_in id models s in
      let m = s.contents i in
      let row = row_of id m in
      if not (may_retry row m) then rest else (
        true,
        ask values
            (if is_direct key
              then send_private (content_at row m) (drop 3 key) id
              else send_chat_to_room (content_at row m) (drop 5 key) id)
            (change_model values i (mark_row row (codes "queued")) s),
      )

  unfoldable pub retry_message : Bytes → State values → Bool × State values
  retry_message id s =
      let tried = retry_in id s.models s in if is_empty id then (false, s) else tried

  abbrev pub is_own : Option ℕ → Model variant → State values → Bool
  is_own none m s = false
  is_own (some row) m s =
      same_case (variant.to_text (value_at variant m (pos row) (codes "userCode")))
        s.local_user_code

  unfoldable pub own_in : Bytes → List (Bytes × ℕ) → State values → Bool
  own_in id [] s = false
  own_in id ((key, i) ∷ models) s =
      is_own (row_of id (s.contents i)) (s.contents i) s || own_in id models s

  abbrev pub can_recall_message : Bytes → State values → Bool
  can_recall_message id s = not (is_empty id) && (s.admin || own_in id s.models s)

  unfoldable pub recall_message : Bytes → Bytes → State values → Bool × State values
  recall_message id command s =
      if not (can_recall_message id s)
      then (false, s)
      else (true, ask values (send_admin_action (codes "recall") [] id command) s)
