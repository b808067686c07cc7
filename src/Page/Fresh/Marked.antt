-- ===== src/Page/Fresh/Marked.antt =====
-- The signals about the models (client-cpp/gui/src/chat_bridge.cpp).
use cross_language_lan_chatr.Prelude.{
  ◌≡◌, refl, sym, ap, ◌∙◌, inl, inr, ℕ, Bool, true, false, ◌||◌, List, ◌==◌, ==_iff, if_false,
  Bool-cases,
}
use cross_language_lan_chatr.Prelude.Map.{nat_eq, bytes_eq}
use cross_language_lan_chatr.Bridge.{safe_state}
use cross_language_lan_chatr.Page.{Row, Window, Models, serialize_model}
use cross_language_lan_chatr.Page.Steps
use cross_language_lan_chatr.Page.Steps.{
  State, contains, add, remove, serialize_dirty, or_no_items, snapshot_for, set_rows,
  schedule_state_update, rebuild_state_snapshot, publish_state, mark_model_dirty, connect_model,
  connect_first, handle_connection_error, complete_waiting, connect_all, unconnected, first_models,
  new_bridge,
}
use cross_language_lan_chatr.Page.Signals.{reference, is_shown}
use cross_language_lan_chatr.Page.Fresh.Cache.{
  core, Linked, Kept, add-contains, add-same, Cached-connect, Cached-changed, Cached-apart,
  Cached-removed, contains-remove,
}
use cross_language_lan_chatr.Page.Fresh.Scheduled.{Current}
use cross_language_lan_chatr.Page.Fresh.Built.{rebuild-Current, state_object-agree}

pub publish-Current : (s : State) → Kept (core s) → Current (publish_state s)
unfolding publish_state reference
publish-Current s kept = rebuild-Current s kept

-- A model that is to be shown is connected first.
Linked-add :
    (models : Models) (connected : List ℕ) (m : ℕ)
    → Linked models connected
    → Linked (record models { active_message_model = m }) (add m connected)
Linked-add models connected m linked = record {
  room = add-contains models.room_model m connected linked.room;
  direct = add-contains models.direct_message_model m connected linked.direct;
  active = add-same m connected;
  member = add-contains models.member_model m connected linked.member;
}

pub active_changed-Kept :
    (m : ℕ) (w : Window) (s : State)
    → Kept (core s)
    → Kept (core (Steps.active_message_model_changed m w s))
unfolding connect_model schedule_state_update mark_model_dirty
active_changed-Kept m w s (linked, cached) = elim (Bool-cases (contains m s.connected_models)) [
  | inl before ↦ rw before (
    record { room = linked.room; direct = linked.direct; active = before; member = linked.member },
    cached,
  )
  | inr first ↦ rw first (
    Linked-add s.models s.connected_models m linked,
    Cached-connect s.rows s.serialized_models s.dirty_models s.connected_models m cached,
  )
]

-- The rows of a model that is not connected are not shown.
reference-apart :
    (m : ℕ) (changed : List Row) (s : State)
    → Linked s.models s.connected_models
    → contains m s.connected_models ≡ false
    → reference (record s { rows = set_rows m changed s.rows }) ≡ reference s
unfolding reference
reference-apart m changed s linked apart = ap safe_state (
    state_object-agree (λ k. serialize_model (set_rows m changed s.rows k))
      (λ k. serialize_model (s.rows k)) s.models s.window s.last_error s.host_defaults
      (unchanged_rows s.models.room_model linked.room)
      (unchanged_rows s.models.direct_message_model linked.direct)
      (unchanged_rows s.models.active_message_model linked.active)
      (unchanged_rows s.models.member_model linked.member))
  where
    unchanged_rows :
        (k : ℕ)
        → contains k s.connected_models ≡ true
        → serialize_model (set_rows m changed s.rows k) ≡ serialize_model (s.rows k)
    unchanged_rows k shown = elim (Bool-cases (m == k)) [
      | inl here ↦
          absurd (cc (apart, shown, ap (λ j. contains j s.connected_models) ((==_iff m k).0 here)))
      | inr other ↦ ap serialize_model (if_false (m == k) changed (s.rows k) other)
    ]

pub rows_changed-Current :
    (m : ℕ) (changed : List Row) (s : State) → Current s → Current (Steps.rows_changed m changed s)
unfolding schedule_state_update mark_model_dirty
rows_changed-Current m changed s ((linked, cached), fresh) =
    elim (Bool-cases (contains m s.connected_models)) [
      | inl connected ↦ rw connected (
        (
          linked,
          Cached-changed s.rows s.serialized_models s.dirty_models s.connected_models m changed
              cached,
        ),
        inl refl,
      )
      | inr apart ↦ rw apart (
        (
          linked,
          Cached-apart s.rows s.serialized_models s.dirty_models s.connected_models m changed apart
              cached,
        ),
        elim fresh [
          | inl on ↦ inl on
          | inr now ↦ inr (now ∙ sym (reference-apart m changed s linked apart))
        ],
      )
    ]

neither : (b c : Bool) → b || c ≡ false → (b ≡ false) × (c ≡ false)
neither true c e = absurd (cc e)
neither false c e = (refl, e)

Linked-remove :
    (m : ℕ) (models : Models) (connected : List ℕ)
    → is_shown m models ≡ false
    → Linked models connected
    → Linked models (remove m connected)
Linked-remove m models connected hidden linked =
    let a = m == models.room_model in
    let b = m == models.direct_message_model in
    let c = m == models.active_message_model in
    let (first, member) = neither (a || b || c) (m == models.member_model) hidden in
    let (two, active) = neither (a || b) c first in
    let (room, direct) = neither a b two in
    record {
      room = stays models.room_model room linked.room;
      direct = stays models.direct_message_model direct linked.direct;
      active = stays models.active_message_model active linked.active;
      member = stays models.member_model member linked.member;
    }
  where
    stays :
        (k : ℕ)
        → m == k ≡ false
        → contains k connected ≡ true
        → contains k (remove m connected) ≡ true
    stays k other h = contains-remove k m connected ∙ rw (other, h) refl

pub model_destroyed-Current :
    (m : ℕ) (s : State)
    → is_shown m s.models ≡ false
    → Current s
    → Current (Steps.model_destroyed m s)
unfolding reference
model_destroyed-Current m s hidden ((linked, cached), fresh) = (
  (
    Linked-remove m s.models s.connected_models hidden linked,
    Cached-removed s.rows s.serialized_models s.dirty_models s.connected_models m cached,
  ),
  fresh,
)
