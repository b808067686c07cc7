-- ===== src/Controller/Events.antt =====
-- The events of the window, one after another (client-cpp/gui/src/gui_chat_controller.cpp).
use cross_language_lan_chatr.Prelude.{ℕ, Bool, true, false, Option, List, [], ◌∷◌, Bytes}
use cross_language_lan_chatr.ChatModel.{Model, make_model}
use cross_language_lan_chatr.Controller.{
  Values, disconnect_from_server, schedule_reconnect, message_roles, lobby, room_key, State, ask,
}
use cross_language_lan_chatr.ChatModel.{Row}
use cross_language_lan_chatr.Controller.{Approval}
use cross_language_lan_chatr.Controller.Replies.{
  do_search, retry_message, recall_message, do_receipt, do_error, do_failed, do_approval_request,
  do_approval_result, do_history, do_connection_failed,
}
use cross_language_lan_chatr.Controller.Conversations.{
  Incoming, do_select_room, do_select_direct, do_open_private, do_send_room, do_send_private,
  do_receive_chat, do_receive_system, do_remove, do_connected,
}

module _ (values : Values) where
  pub data Event : Type 0 where
    select_room select_direct_message remove_local_message : Bytes → Event
    open_private_chat : Bytes → Bytes → Event
    -- Content, room or user code, the new message's identity and the time.
    send_room_message send_private_message : Bytes → Bytes → Bytes → Bytes → Event
    search_active_history retry : Bytes → Event
    -- Identity and command.
    recall : Bytes → Bytes → Event
    receive_chat : Incoming → Bytes → Event
    -- The conversation's room, or none for the one that is shown; content and time.
    receive_system : Option Bytes → Bytes → Bytes → Event
    -- Identity, content and state.
    receive_receipt : Bytes → Bytes → Bytes → Event
    receive_error delivery_failed message_recalled : Bytes → Event
    receive_login_ok handle_connected : Bool → Event
    approval_request : Approval → Event
    -- Identity and content, the two texts and the time.
    approval_result : Bytes → Bytes → Bytes × Bytes → Bytes → Event
    -- The time shown for a moment, room, peer, whether it is private, messages and search.
    handle_history :
        (Bytes → Bytes) → Bytes → Bytes → Bool → List (Row values.variant) → Bytes → Event
    handle_connection_failed : Bytes → Bytes → Event
    handle_connection_lost disconnect : Event

module _ (values : Values) (text_of_number : ℕ → Bytes) where
  open values use {variant, flag, to_flag, number, trimmed, same_case}

  -- The constructor, with the models of the rooms and of the direct messages.
  abbrev pub new_controller : Model variant → Model variant → Bytes → Bytes → State values
  new_controller rooms directs name code = record {
    models = (room_key lobby, 0) ∷ [];
    contents = λ i. make_model variant message_roles;
    next = 1;
    order = (room_key lobby, 1) ∷ [];
    sequence = 1;
    message_model = 0;
    active = room_key lobby;
    room_model = rooms;
    direct_message_model = directs;
    connected = false;
    reconnecting = false;
    admin = false;
    pending_connection_approvals = [];
    joined_room = lobby;
    history_loading = false;
    history_search_query = [];
    active_room_can_manage = false;
    local_user_name = name;
    local_user_code = code;
    local_message_counter = 0;
    requests = [];
  }

  unfoldable pub step : Bytes → Event values → State values → State values
  step unknown (select_room room) s = do_select_room values text_of_number room s
  step unknown (select_direct_message code) s = do_select_direct values text_of_number code s
  step unknown (open_private_chat name code) s = do_open_private values text_of_number name code s
  step unknown (send_room_message content room id time) s =
      do_send_room values text_of_number content room id time s
  step unknown (send_private_message content code id time) s =
      do_send_private values text_of_number content code id time s
  step unknown (receive_chat m time) s = do_receive_chat values text_of_number unknown m time s
  step unknown (receive_system room content time) s =
      do_receive_system values text_of_number room content time s
  step unknown (remove_local_message id) s = do_remove values text_of_number id s
  step unknown (search_active_history query) s = do_search values text_of_number trimmed query s
  step unknown (retry id) s = (retry_message values text_of_number id s).1
  step unknown (recall id command) s = (recall_message values text_of_number id command s).1
  step unknown (receive_receipt id content delivery) s =
      do_receipt values text_of_number id content delivery s
  step unknown (receive_error id) s = do_error values text_of_number id s
  step unknown (delivery_failed id) s = do_failed values text_of_number id s
  step unknown (message_recalled id) s = do_remove values text_of_number id s
  step unknown (receive_login_ok is_admin) s = record s { admin = is_admin }
  step unknown (approval_request a) s = do_approval_request values text_of_number a s
  step unknown (approval_result id content shown time) s =
      do_approval_result values text_of_number id content shown time s
  step unknown (handle_history time_of room peer private details search) s =
      do_history values text_of_number time_of room peer private details search s
  step unknown (handle_connected is_admin) s = do_connected values text_of_number is_admin s
  step unknown (handle_connection_failed status time) s =
      do_connection_failed values text_of_number status time s
  step unknown handle_connection_lost s =
      ask values schedule_reconnect (record s { connected = false; reconnecting = true })
  step unknown disconnect s = record (ask values disconnect_from_server s) { connected = false }

  unfoldable pub run : Bytes → List (Event values) → State values → State values
  run unknown [] s = s
  run unknown (event ∷ events) s = run unknown events (step unknown event s)
