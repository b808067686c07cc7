-- ===== src/Page/Fresh/Built.antt =====
-- What a build of the state shows (client-cpp/gui/src/chat_bridge.cpp).
use cross_language_lan_chatr.Prelude.{◌≡◌, refl, ap, inr, ℕ, true}
use cross_language_lan_chatr.Prelude.Map.{nat_eq, bytes_eq}
use cross_language_lan_chatr.Json.{Items, Members}
use cross_language_lan_chatr.Bridge.{safe_state}
use cross_language_lan_chatr.Page.{Window, Models, serialize_model, state_object}
use cross_language_lan_chatr.Page.Steps.{
  State, contains, serialize_dirty, or_no_items, snapshot_for, rebuild_state_snapshot,
}
use cross_language_lan_chatr.Page.Signals.{reference}
use cross_language_lan_chatr.Page.Fresh.Cache.{core, Kept, Cached-serialize_dirty, Cached-rebuilt}
use cross_language_lan_chatr.Page.Fresh.Scheduled.{Current}

snapshot-serialize :
    (s : State)
    → Kept (core s)
    → (m : ℕ) → contains m s.connected_models ≡ true
    → snapshot_for (serialize_dirty s.rows s.dirty_models s.serialized_models) m
      ≡ serialize_model (s.rows m)
snapshot-serialize s (linked, cached) m h =
    ap or_no_items (
      Cached-serialize_dirty s.rows s.serialized_models s.dirty_models s.connected_models cached m
        h)

-- Only the four models that are shown matter.
pub state_object-agree :
    (f g : ℕ → Items) (models : Models) (w : Window) (last_error host_defaults : Members)
    → f models.room_model ≡ g models.room_model
    → f models.direct_message_model ≡ g models.direct_message_model
    → f models.active_message_model ≡ g models.active_message_model
    → f models.member_model ≡ g models.member_model
    → state_object f models w last_error host_defaults
      ≡ state_object g models w last_error host_defaults
unfolding state_object
state_object-agree f g models w last_error host_defaults room direct active member =
    rw (room, direct, active, member) refl

-- A build, with whatever is still marked, makes the state that is current.
pub rebuild-reference :
    (s : State) → Kept (core s) → (rebuild_state_snapshot s).latest_state ≡ reference s
unfolding rebuild_state_snapshot reference
rebuild-reference s kept =
    let (linked, cached) = kept in
    let agree = snapshot-serialize s kept in
    ap safe_state (
      state_object-agree _ _ s.models s.window s.last_error s.host_defaults
        (agree s.models.room_model linked.room) (agree s.models.direct_message_model linked.direct)
        (agree s.models.active_message_model linked.active)
        (agree s.models.member_model linked.member))

pub rebuild-Kept : (s : State) → Kept (core s) → Kept (core (rebuild_state_snapshot s))
unfolding rebuild_state_snapshot
rebuild-Kept s (linked, cached) =
    (linked, Cached-rebuilt s.rows s.serialized_models s.dirty_models s.connected_models cached)

pub rebuild-Current : (s : State) → Kept (core s) → Current (rebuild_state_snapshot s)
unfolding rebuild_state_snapshot reference
rebuild-Current s kept = (rebuild-Kept s kept, inr (rebuild-reference s kept))
