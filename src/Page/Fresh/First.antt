-- ===== src/Page/Fresh/First.antt =====
-- The constructor of the bridge of client-cpp/gui/src/chat_bridge.cpp.
use cross_language_lan_chatr.Prelude.{
  ◌≡◌, refl, sym, ◌∙◌, subst, inl, inr, ℕ, true, List, [], ◌∷◌, ◌==◌, ==_iff, ==_refl, Bool-cases,
  arith,
}
use cross_language_lan_chatr.Prelude.Map.{nat_eq, bytes_eq}
use cross_language_lan_chatr.Page.{Row, Window, Models}
use cross_language_lan_chatr.Page.Steps.{
  State, contains, connect_first, connect_all, unconnected, first_models, new_bridge,
}
use cross_language_lan_chatr.Page.Fresh.Cache.{
  Cached, Linked, add-contains, add-same, Cached-connect,
}
use cross_language_lan_chatr.Page.Fresh.Scheduled.{Current}
use cross_language_lan_chatr.Page.Fresh.Built.{rebuild-Current}

connect_first-Cached :
    (m : ℕ) (s : State)
    → Cached s.rows s.serialized_models s.dirty_models s.connected_models
    → let t = connect_first m s in
      Cached t.rows t.serialized_models t.dirty_models t.connected_models
unfolding connect_first
connect_first-Cached m s cached = elim (Bool-cases (contains m s.connected_models)) [
  | inl before ↦ rw before cached
  | inr first ↦
      rw first
        (Cached-connect s.rows s.serialized_models s.dirty_models s.connected_models m cached)
]

connect_first-contains :
    (m k : ℕ) (s : State)
    → contains k s.connected_models ≡ true
    → contains k (connect_first m s).connected_models ≡ true
unfolding connect_first
connect_first-contains m k s h = elim (Bool-cases (contains m s.connected_models)) [
  | inl before ↦ rw before h
  | inr first ↦ rw first (add-contains k m s.connected_models h)
]

connect_first-same : (m : ℕ) (s : State) → contains m (connect_first m s).connected_models ≡ true
unfolding connect_first
connect_first-same m s = elim (Bool-cases (contains m s.connected_models)) [
  | inl before ↦ rw before before
  | inr first ↦ rw first (add-same m s.connected_models)
]

connect_first-models : (m : ℕ) (s : State) → (connect_first m s).models ≡ s.models
unfolding connect_first
connect_first-models m s = elim (Bool-cases (contains m s.connected_models)) [
  | inl before ↦ rw before refl
  | inr first ↦ rw first refl
]

connect_all-models : (ms : List ℕ) (s : State) → (connect_all ms s).models ≡ s.models
unfolding connect_all
connect_all-models [] s = refl
connect_all-models (m ∷ ms) s = connect_all-models ms (connect_first m s) ∙ connect_first-models m s

connect_all-Cached :
    (ms : List ℕ) (s : State)
    → Cached s.rows s.serialized_models s.dirty_models s.connected_models
    → let t = connect_all ms s in
      Cached t.rows t.serialized_models t.dirty_models t.connected_models
unfolding connect_all
connect_all-Cached [] s h = h
connect_all-Cached (m ∷ ms) s h =
    connect_all-Cached ms (connect_first m s) (connect_first-Cached m s h)

connect_all-before :
    (k : ℕ) (ms : List ℕ) (s : State)
    → contains k s.connected_models ≡ true
    → contains k (connect_all ms s).connected_models ≡ true
unfolding connect_all
connect_all-before k [] s h = h
connect_all-before k (m ∷ ms) s h =
    connect_all-before k ms (connect_first m s) (connect_first-contains m k s h)

connect_all-contains :
    (k : ℕ) (ms : List ℕ) (s : State)
    → contains k ms ≡ true
    → contains k (connect_all ms s).connected_models ≡ true
unfolding connect_all contains
connect_all-contains k [] s h = absurd (cc h)
connect_all-contains k (m ∷ ms) s h =
    let later = connect_all-contains k ms (connect_first m s) in
    elim (Bool-cases (m == k)) [
      | inl here ↦ connect_all-before k ms (connect_first m s) (
          subst (λ j. contains j (connect_first m s).connected_models ≡ true) ((==_iff m k).0 here)
            (connect_first-same m s))
      | inr other ↦ later (rw other at h)
    ]

pub new_bridge-Current :
    (window : Window) (models : Models) (rows : ℕ → List Row)
    → Current (new_bridge window models rows)
unfolding new_bridge contains
new_bridge-Current window models rows =
    let start = unconnected window models rows in
    let linked = λ (k : ℕ) (h : contains k (first_models models) ≡ true).
      connect_all-contains k (first_models models) start h in
    rebuild-Current (connect_all (first_models models) start) (
      subst (λ m. Linked m (connect_all (first_models models) start).connected_models)
          (sym (connect_all-models (first_models models) start))
          record {
            room = linked models.room_model (ground (arith, ==_refl models.room_model));
            direct =
                linked models.direct_message_model
                  (ground (arith, ==_refl models.direct_message_model));
            active =
                linked models.active_message_model
                  (ground (arith, ==_refl models.active_message_model));
            member = linked models.member_model (ground (arith, ==_refl models.member_model));
          },
      connect_all-Cached (first_models models) start (λ m h. absurd (cc h)),
    )
