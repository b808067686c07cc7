-- ===== src/Page/Fresh.antt =====
-- The state that the page has been sent is current (client-cpp/gui/src/chat_bridge.cpp).
pub mod Cache
pub mod Scheduled
pub mod Built
pub mod Marked
pub mod First
use cross_language_lan_chatr.Prelude.{
  ◌≡◌, refl, sym, ap, ◌∙◌, subst, ◌⊎◌, inl, inr, ℕ, Bool, true, false, not, ◌&&◌, ◌||◌, Option,
  none, some, List, [], ◌∷◌, if◌then◌else◌, ◌==◌, ==_iff, ==_refl, if_true, if_false, Bool-cases,
  is_empty, arith, Bytes, codes,
}
use cross_language_lan_chatr.Prelude.Map.{lookup, nat_eq, bytes_eq}
use cross_language_lan_chatr.Json.{Json, Items, Members, no_members}
use cross_language_lan_chatr.Bridge.{Qt, safe_state}
use cross_language_lan_chatr.Bridge.Requests.Chosen.{and-true, unnegated}
use cross_language_lan_chatr.Page.{
  Row, Window, Models, state_changed, serialize_model, state_object,
}
use cross_language_lan_chatr.Page.Steps
use cross_language_lan_chatr.Page.Steps.{
  State, contains, add, remove, serialize_dirty, or_no_items, snapshot_for, set_rows,
  schedule_state_update, rebuild_state_snapshot, publish_state, mark_model_dirty, connect_model,
  connect_first, handle_connection_error, complete_waiting, connect_all, unconnected, first_models,
  new_bridge,
}
use cross_language_lan_chatr.Page.Dispatch.{Texts}
use cross_language_lan_chatr.Page.Signals.{
  Signal, window_changed, connected_changed, active_message_model_changed, rows_changed,
  model_destroyed, timeout, connection_failed, connection_lost, recall_succeeded, recall_failed,
  mls_command_result, attachment_event, request, reference, is_shown, allowed, step, run,
  all_allowed,
}
use cross_language_lan_chatr.Page.Fresh.Cache.{
  Core, core, Cached, Linked, Kept, Cached-serialize_dirty, Cached-rebuilt, add-contains, add-same,
  Cached-connect, Cached-changed, Cached-apart, Cached-removed, contains-remove,
}
use cross_language_lan_chatr.Page.Fresh.Scheduled.{Quiet, Current, Quiet-Current, dispatch-Quiet}
use cross_language_lan_chatr.Page.Fresh.Built.{rebuild-reference, rebuild-Current}
use cross_language_lan_chatr.Page.Fresh.Marked.{
  publish-Current, active_changed-Kept, rows_changed-Current, model_destroyed-Current,
}
use cross_language_lan_chatr.Page.Fresh.First.{new_bridge-Current}

complete_waiting-Quiet :
    (id : Bytes) (ok : Bool) (reason : Bytes) (s : State) (o : Option Bytes)
    → Quiet s (complete_waiting id ok reason s o)
unfolding complete_waiting
complete_waiting-Quiet id ok reason s none = (refl, inr (refl, refl))
complete_waiting-Quiet id ok reason s (some result_id) = (refl, inr (refl, refl))

module _ (qt : Qt) (texts : Texts) where
  pub step-Current :
      (signal : Signal) (s : State)
      → allowed signal s ≡ true
      → Current s
      → Current (step qt texts signal s)
  unfolding step schedule_state_update handle_connection_error Steps.mls_command_result
  step-Current (window_changed w) s h c = Quiet-Current s _ (refl, inl refl) c
  step-Current (connected_changed w) s h c = Quiet-Current s _ (told w.connected) c
    where
      told :
          (b : Bool)
          → let t = record s { window = w } in
            Quiet s (schedule_state_update (if b then record t { last_error = no_members } else t))
      told true = (refl, inl refl)
      told false = (refl, inl refl)
  step-Current (active_message_model_changed m w) s h (kept, fresh) =
      (active_changed-Kept m w s kept, inl refl)
  step-Current (rows_changed m changed) s h c = rows_changed-Current m changed s c
  step-Current (model_destroyed m) s h c =
      model_destroyed-Current m s (unnegated (is_shown m s.models) h) c
  step-Current timeout s h c = elim (Bool-cases s.timer_active) [
    | inl on ↦ rw on (publish-Current (record s { timer_active = false }) c.0)
    | inr off ↦ subst Current (sym (if_false s.timer_active _ s off)) c
  ]
  step-Current (connection_failed reason) s h c = Quiet-Current s _ (refl, inl refl) c
  step-Current (connection_lost reason) s h c = Quiet-Current s _ (lost s.window.reconnecting) c
    where
      lost :
          (b : Bool)
          → Quiet s (
              if b
              then schedule_state_update (record s { last_error = no_members })
              else handle_connection_error (codes "connection_lost") reason true s)
      lost true = (refl, inl refl)
      lost false = (refl, inl refl)
  step-Current (recall_succeeded id) s h c =
      Quiet-Current s _ (complete_waiting-Quiet id true [] s (lookup id s.pending_recalls)) c
  step-Current (recall_failed id reason) s h c =
      Quiet-Current s _ (complete_waiting-Quiet id false reason s (lookup id s.pending_recalls)) c
  step-Current (mls_command_result id ok code message) s h c =
      Quiet-Current s _ (finished (is_empty id) _ (refl, inr (refl, refl))) c
    where
      finished : (b : Bool) (t : State) → Quiet s t → Quiet s (if b then s else t)
      finished true t q = (refl, inr (refl, refl))
      finished false t q = q
  step-Current (attachment_event e) s h c = Quiet-Current s _ (refl, inr (refl, refl)) c
  step-Current (Signal.set_host_defaults defaults) s h c =
      rebuild-Current (record s { host_defaults = defaults }) c.0
  step-Current (request replies document) s h c =
      Quiet-Current s _ (dispatch-Quiet replies qt texts document (s, [])) c

  run-Current :
      (signals : List Signal) (s : State)
      → all_allowed qt texts signals s ≡ true
      → Current s
      → Current (run qt texts signals s)
  unfolding run all_allowed
  run-Current [] s h c = c
  run-Current (signal ∷ signals) s h c =
      let (first, rest) =
        and-true (allowed signal s) (all_allowed qt texts signals (step qt texts signal s)) h in
      run-Current signals (step qt texts signal s) rest (step-Current signal s first c)

-- Whatever signals, timeouts and requests reach a new bridge, as long as no model that is shown is
-- destroyed, a publication is scheduled or the state that was built last is the one that the page
-- would be shown if every model were serialized anew; and publishing sends the page that state.
pub run-new_bridge-fresh :
    (qt : Qt) (texts : Texts) (window : Window) (models : Models) (rows : ℕ → List Row)
    (signals : List Signal)
    → all_allowed qt texts signals (new_bridge window models rows) ≡ true
    → let t = run qt texts signals (new_bridge window models rows) in
      ((t.timer_active ≡ true) ⊎ (t.latest_state ≡ reference t))
      × ((publish_state t).outputs ≡ state_changed (reference t) ∷ t.outputs)
unfolding publish_state rebuild_state_snapshot
run-new_bridge-fresh qt texts window models rows signals h =
    let start = new_bridge window models rows in
    let (kept, fresh) =
      run-Current qt texts signals start h (new_bridge-Current window models rows) in
    let t = run qt texts signals start in
    (fresh, ap (λ ms. state_changed ms ∷ t.outputs) (rebuild-reference t kept))
