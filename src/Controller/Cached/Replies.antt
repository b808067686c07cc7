-- ===== src/Controller/Cached/Replies.antt =====
-- What the worker tells leaves the model that is shown in the cache
-- (client-cpp/gui/src/gui_chat_controller.cpp).
use cross_language_lan_chatr.Prelude.{
  ℕ, Bool, true, false, not, ◌&&◌, ◌||◌, List, [], ◌∷◌, if◌then◌else◌, is_empty, Bytes, codes, same,
}
use cross_language_lan_chatr.Prelude.Map.{bytes_eq}
use cross_language_lan_chatr.ChatModel.{Row}
use cross_language_lan_chatr.Controller.{Values, State, room_key, direct_key}
use cross_language_lan_chatr.Controller.Replies.{
  mark, row_of, may_retry, retry_in, can_recall_message, do_search, retry_message, recall_message,
  do_receipt, do_error, do_failed, do_approval_request, do_approval_result, do_history,
}
use cross_language_lan_chatr.Controller.{Approval}
use cross_language_lan_chatr.ChatModel.{Row}
use cross_language_lan_chatr.Controller.Trimmed.{Shown}
use cross_language_lan_chatr.Controller.Cached.Basics.{
  change_all-Shown, choice-Shown, request-Shown,
}

module _ (values : Values) (text_of_number : ℕ → Bytes) where
  pub receipt-Shown :
      (id content delivery : Bytes) (s : State values)
      → Shown values s
      → Shown values (do_receipt values text_of_number id content delivery s)
  unfolding do_receipt
  receipt-Shown id content delivery s h =
      let state = if is_empty delivery then content else delivery in
      choice-Shown values text_of_number
        (is_empty id || (not (same state (codes "sent")) && not (same state (codes "delivered")))) s
        _ h
        (change_all-Shown values text_of_number (mark values text_of_number id state) s.models s h)

  pub failed-Shown :
      (id : Bytes) (s : State values)
      → Shown values s
      → Shown values (do_failed values text_of_number id s)
  unfolding do_failed
  failed-Shown id s h =
      change_all-Shown values text_of_number (mark values text_of_number id (codes "failed"))
        s.models s h

  pub error-Shown :
      (id : Bytes) (s : State values)
      → Shown values s
      → Shown values (do_error values text_of_number id s)
  unfolding do_error
  error-Shown id s h = choice-Shown values text_of_number (is_empty id) s _ h (failed-Shown id s h)

  pub approval_request-Shown :
      (a : Approval) (s : State values)
      → Shown values s
      → Shown values (do_approval_request values text_of_number a s)
  unfolding do_approval_request
  approval_request-Shown a s h =
      choice-Shown values text_of_number
        (is_empty a.id || is_empty a.display_name || is_empty a.user_code) s _ h h

  pub approval_result-Shown :
      (id content : Bytes) (shown : Bytes × Bytes) (time : Bytes) (s : State values)
      → Shown values s
      → Shown values (do_approval_result values text_of_number id content shown time s)
  unfolding do_approval_result
  approval_result-Shown id content shown time s h =
      choice-Shown values text_of_number (same content (codes "approved")) _ _ h
        (choice-Shown values text_of_number (same content (codes "denied")) _ _ h h)

  pub history-Shown :
      (time_of : Bytes → Bytes) (room peer : Bytes) (private : Bool)
      (details : List (Row values.variant)) (search : Bytes) (s : State values)
      → Shown values s
      → Shown values (do_history values text_of_number time_of room peer private details search s)
  unfolding do_history
  history-Shown time_of room peer private details search s h =
      let expected = if private then direct_key peer else room_key room in
      choice-Shown values text_of_number (not (values.same_case expected s.active)) _ _ h (
        choice-Shown values text_of_number (not (same search s.history_search_query)) _ _
          (request-Shown values text_of_number s.history_search_query
            (record s { history_loading = false }) h)
          h)

  pub search-Shown :
      (query : Bytes) (s : State values)
      → Shown values s
      → Shown values (do_search values text_of_number values.trimmed query s)
  unfolding do_search
  search-Shown query s h =
      let searching = record s { history_search_query = values.trimmed query } in
      choice-Shown values text_of_number (not s.history_loading) _ searching
        (request-Shown values text_of_number (values.trimmed query) searching h) h

  pub pair-Shown :
      (b : Bool) (x y : Bool × State values)
      → Shown values x.1
      → Shown values y.1
      → Shown values (if b then x else y).1
  pair-Shown true x y h k = h
  pair-Shown false x y h k = k

  pub retry_in-Shown :
      (id : Bytes) (models : List (Bytes × ℕ)) (s : State values)
      → Shown values s
      → Shown values (retry_in values text_of_number id models s).1
  unfolding retry_in
  retry_in-Shown id [] s h = h
  retry_in-Shown id ((key, i) ∷ models) s h =
      let m = s.contents i in
      pair-Shown (not (may_retry values text_of_number (row_of values text_of_number id m) m)) _ _
        (retry_in-Shown id models s h) h

  pub retry-Shown :
      (id : Bytes) (s : State values)
      → Shown values s
      → Shown values (retry_message values text_of_number id s).1
  unfolding retry_message
  retry-Shown id s h = pair-Shown (is_empty id) _ _ h (retry_in-Shown id s.models s h)

  pub recall-Shown :
      (id command : Bytes) (s : State values)
      → Shown values s
      → Shown values (recall_message values text_of_number id command s).1
  unfolding recall_message
  recall-Shown id command s h =
      pair-Shown (not (can_recall_message values text_of_number id s)) _ _ h h
