-- ===== src/Page/Tests.antt =====
-- Tests and examples for client-cpp/gui/src/chat_bridge.cpp.
use cross_language_lan_chatr.Prelude.{
  ℕ, ◌≡◌, refl, ◌⊎◌, Bool, true, false, none, some, List, [], ◌∷◌, Bytes, codes, same, pos, ltb,
  leb, ◌==◌, length,
}
use cross_language_lan_chatr.Prelude.Map.{lookup, insert, bytes_eq, nat_eq}
use cross_language_lan_chatr.Json.{
  null, text, boolean, object, no_items, Members, member, no_members, get,
}
use cross_language_lan_chatr.Bridge.{Qt, to_text, has_key, has_required_strings}
use cross_language_lan_chatr.Bridge.Rules.{first_rule, validate_command}
use cross_language_lan_chatr.Bridge.Requests.{Accepted}
use cross_language_lan_chatr.Page.{Row, Window, Models, state_changed, command_result}
use cross_language_lan_chatr.Page.Steps
use cross_language_lan_chatr.Page.Steps.{
  State, contains, add, remove, connect_first, connect_all, unconnected, new_bridge,
  complete_waiting, complete_recall_command, publish_state, rebuild_state_snapshot,
  schedule_state_update,
}
use cross_language_lan_chatr.Page.Branches.{field, Replies, branch_of}
use cross_language_lan_chatr.Page.Dispatch.{Texts, dispatch, take_branch, do_recall}
use cross_language_lan_chatr.Page.Signals.{
  Signal, rows_changed, active_message_model_changed, model_destroyed, timeout, step, run,
  all_allowed, reference,
}
use cross_language_lan_chatr.Page.Answers.Results.{Answered, Outcome}
use cross_language_lan_chatr.Page.Answers.{dispatch-Outcome, complete_recall_command-once}
use cross_language_lan_chatr.Page.Fresh.{run-new_bridge-fresh}

abbrev plain_window : Window
plain_window = record {
  connected = true;
  reconnecting = false;
  admin = false;
  active_room_can_manage = false;
  status_text = codes "ok";
  active_conversation_key = codes "room:lobby";
  local_user_name = codes "ann";
  local_user_code = codes "1";
  pending_connection_approvals = no_items;
  diagnostics_enabled = false;
  log_directory_path = [];
  performance = none;
  graphics = none;
  saved = λ name. null;
  scanning = false;
  hosts_json = no_items;
}

abbrev five_models : Models
five_models = record {
  room_model = 1;
  direct_message_model = 2;
  message_model = 3;
  member_model = 4;
  active_message_model = 5;
}

abbrev no_rows : ℕ → List Row
no_rows m = []

abbrev started : State
started = new_bridge plain_window five_models no_rows

abbrev qt : Qt
qt = record {
  trimmed = λ s. s;
  to_lower = λ s. s;
  utf8_size = length;
  to_int = λ v. pos 0;
  Double = ℕ;
  to_double = λ v. 0;
  number = λ n. n;
  less = ltb;
  at_most = leb;
  equal = λ a b. a == b;
  floor = λ n. n;
  is_finite = λ n. true;
}

abbrev yes_to_all : Replies
yes_to_all = record {
  refresh_error = none;
  connect_data = λ id. (record { server_ip = codes "10.0.0.2"; server_port = pos 9000 }, none);
  persist_certificate = λ host. codes "cert";
  persist_error = [];
  may_recall = λ message. true;
  enabled_after = λ b. b;
  to_int = λ v. pos 0;
  to_integer = λ v. pos 0;
  from_base64 = λ s. s;
}

abbrev texts : Texts
texts = record { invalid_text = codes "invalid"; capability_text = codes "unavailable" }

abbrev recall_request : Members
recall_request = member (codes "id") (text (codes "c1")) (
    member (codes "payload") (object (member (codes "messageId") (text (codes "m7")) no_members))
      (member (codes "type") (text (codes "message.recall")) no_members))

-- The request is noted, waits and is answered once.
recalled :
    lookup
      (codes "c1")
      (dispatch yes_to_all qt texts (some (object recall_request)) (started, [])).0.pending_recalls
    ≡ some (codes "c1")
unfolding dispatch validate_command first_rule has_required_strings has_key same get branch_of
    take_branch do_recall insert lookup schedule_state_update new_bridge connect_all connect_first
    add contains rebuild_state_snapshot
recalled = refl

dispatch-Outcome_example :
    let t = dispatch yes_to_all qt texts (some (object recall_request)) (started, []) in
    let id = to_text (get (codes "id") recall_request) in
    ((a : Accepted qt recall_request) × Outcome
        (yes_to_all.may_recall (field (codes "messageId") a.payload))
        a.type
        id
        started
        t.0)
    ⊎ ((¬ Accepted qt recall_request)
        × ((r : Answered id started t.0) × (r.ok ≡ false) × (t.1 ≡ [])))
dispatch-Outcome_example = dispatch-Outcome yes_to_all qt texts recall_request started []

abbrev waiting : State
waiting = record started { pending_recalls = (codes "c1", codes "c1") ∷ [] }

is_waiting : lookup (codes "c1") waiting.pending_recalls ≡ some (codes "c1")
unfolding lookup same
is_waiting = refl

complete_recall_command-once_example :
    let t = complete_recall_command (codes "c1") true [] waiting in
    ((result : Members) × (t.outputs ≡ command_result result ∷ waiting.outputs)
      × (get (codes "id") result ≡ some (text (codes "c1")))
      × (get (codes "ok") result ≡ some (boolean true)))
    × ((again : Bool) (reason : Bytes) → complete_recall_command (codes "c1") again reason t ≡ t)
    × ((other : Bytes)
        → same (codes "c1") other ≡ false
        → lookup other t.pending_recalls ≡ lookup other waiting.pending_recalls)
complete_recall_command-once_example =
    complete_recall_command-once (codes "c1") (codes "c1") [] true waiting is_waiting

abbrev shown_signals : List Signal
shown_signals =
    active_message_model_changed 6 plain_window
    ∷ rows_changed 6 (((codes "content", text (codes "hi")) ∷ []) ∷ [])
    ∷ model_destroyed 5
    ∷ timeout
    ∷ []

all_may_happen : all_allowed qt texts shown_signals started ≡ true
unfolding all_allowed step new_bridge connect_all connect_first add contains rebuild_state_snapshot
    schedule_state_update Steps.connect_model Steps.mark_model_dirty
all_may_happen = refl

run-new_bridge-fresh_example :
    let t = run qt texts shown_signals started in
    ((t.timer_active ≡ true) ⊎ (t.latest_state ≡ reference t))
    × ((publish_state t).outputs ≡ state_changed (reference t) ∷ t.outputs)
run-new_bridge-fresh_example =
    run-new_bridge-fresh qt texts plain_window five_models no_rows shown_signals all_may_happen
