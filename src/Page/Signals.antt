-- ===== src/Page/Signals.antt =====
-- What reaches the bridge of client-cpp/gui/src/chat_bridge.cpp one after another: the signals of the
-- objects around it, the timer and the requests of the page. What an object returns changes only with
-- one of its signals.
use cross_language_lan_chatr.Prelude.{
  ℕ, Bool, true, false, not, ◌&&◌, ◌||◌, Option, List, [], ◌∷◌, if◌then◌else◌, ◌==◌, Bytes, codes,
}
use cross_language_lan_chatr.Json.{Json, Members}
use cross_language_lan_chatr.Bridge.{Qt, safe_state}
use cross_language_lan_chatr.Page.{Row, Window, Models, serialize_model, state_object}
use cross_language_lan_chatr.Page.Steps
use cross_language_lan_chatr.Page.Steps.{
  State, AttachmentEvent, schedule_state_update, publish_state, handle_connection_error,
  complete_recall_command,
}
use cross_language_lan_chatr.Page.Branches.{Replies}
use cross_language_lan_chatr.Page.Dispatch.{Texts, dispatch}

pub data Signal : Type 0 where
  window_changed connected_changed : Window → Signal
  active_message_model_changed : ℕ → Window → Signal
  rows_changed : ℕ → List Row → Signal
  model_destroyed : ℕ → Signal
  timeout : Signal
  connection_failed connection_lost : Bytes → Signal
  recall_succeeded : Bytes → Signal
  recall_failed : Bytes → Bytes → Signal
  mls_command_result : Bytes → Bool → Bytes → Bytes → Signal
  attachment_event : AttachmentEvent → Signal
  set_host_defaults : Members → Signal
  request : Replies → Option Json → Signal

-- The state that the page would be shown now, each model serialized anew.
unfoldable pub reference : State → Members
reference s =
    safe_state (
      state_object (λ m. serialize_model (s.rows m)) s.models s.window s.last_error s.host_defaults)

abbrev pub is_shown : ℕ → Models → Bool
is_shown m models =
    m == models.room_model
    || m == models.direct_message_model
    || m == models.active_message_model
    || m == models.member_model

-- A model that is shown is not destroyed.
abbrev pub allowed : Signal → State → Bool
allowed (model_destroyed m) s = not (is_shown m s.models)
allowed _ s = true

module _ (qt : Qt) (texts : Texts) where
  unfoldable pub step : Signal → State → State
  step (window_changed w) s = schedule_state_update (record s { window = w })
  step (connected_changed w) s = Steps.connected_changed w s
  step (active_message_model_changed m w) s = Steps.active_message_model_changed m w s
  step (rows_changed m changed) s = Steps.rows_changed m changed s
  step (model_destroyed m) s = Steps.model_destroyed m s
  step timeout s = if s.timer_active then publish_state (record s { timer_active = false }) else s
  step (connection_failed reason) s =
      handle_connection_error (codes "connection_failed") reason true s
  step (connection_lost reason) s = Steps.connection_lost reason s
  step (recall_succeeded id) s = complete_recall_command id true [] s
  step (recall_failed id reason) s = complete_recall_command id false reason s
  step (mls_command_result id ok code message) s = Steps.mls_command_result id ok code message s
  step (attachment_event e) s = Steps.attachment_event e s
  step (set_host_defaults defaults) s = Steps.set_host_defaults defaults s
  step (request replies document) s = (dispatch replies qt texts document (s, [])).0

  unfoldable pub run : List Signal → State → State
  run [] s = s
  run (signal ∷ signals) s = run signals (step signal s)

  unfoldable pub all_allowed : List Signal → State → Bool
  all_allowed [] s = true
  all_allowed (signal ∷ signals) s = allowed signal s && all_allowed signals (step signal s)
