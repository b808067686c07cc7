-- ===== src/Page/Fresh/Scheduled.antt =====
-- Steps of the bridge that leave the models, their rows and the cache alone, and schedule the state if
-- they change anything else that it shows (client-cpp/gui/src/chat_bridge.cpp).
use cross_language_lan_chatr.Prelude.{
  ◌≡◌, refl, sym, ap, ◌∙◌, subst, ◌⊎◌, inl, inr, Bool, true, false, Option, none, some, [], ◌∷◌,
  Bool-cases, Bytes, codes,
}
use cross_language_lan_chatr.Json.{Json, Members, get}
use cross_language_lan_chatr.Bridge.{Qt, safe_state, to_text, to_object, is_object}
use cross_language_lan_chatr.Bridge.Rules.{validate_command}
use cross_language_lan_chatr.Page.{Window, serialize_model, state_object}
use cross_language_lan_chatr.Page.Steps.{State, schedule_state_update}
use cross_language_lan_chatr.Page.Branches.{
  Replies, Host, Branch, answered, awaited, handed_on, discover, connect_host, recall, choose_mode,
  logging, report, frames, entries, branch_of, field,
}
use cross_language_lan_chatr.Page.Dispatch.{
  Texts, Caller, take_branch, chosen_branch, dispatch, discovered, certified, do_connect_host,
  do_recall, do_choose_mode, do_frames,
}
use cross_language_lan_chatr.Page.Signals.{reference}
use cross_language_lan_chatr.Page.Fresh.Cache.{Core, core, Kept}

-- What the state object is made from besides, and the state that was built last.
abbrev pub View : Type 0
View = Window × Members × Members × Members

abbrev pub view : State → View
view s = (s.window, s.last_error, s.host_defaults, s.latest_state)

-- The state that the page would be shown.
abbrev shown_by : Core → View → Members
shown_by (models, rows, cache, dirty, connected) (w, last_error, host_defaults, latest) =
    safe_state (state_object (λ m. serialize_model (rows m)) models w last_error host_defaults)

abbrev pub Quiet : State → State → Type 0
Quiet s t =
    (core t ≡ core s)
    × ((t.timer_active ≡ true) ⊎ ((t.timer_active ≡ s.timer_active) × (view t ≡ view s)))

-- The cache is kept, and the state is to be published or the last one is current.
abbrev pub Current : State → Type 0
Current s = Kept (core s) × ((s.timer_active ≡ true) ⊎ (s.latest_state ≡ reference s))

pub Quiet-Current : (s t : State) → Quiet s t → Current s → Current t
unfolding reference
Quiet-Current s t (same_core, inl on) (kept, fresh) = (subst Kept (sym same_core) kept, inl on)
Quiet-Current s t (same_core, inr (same_timer, same_view)) (kept, inl on) =
    (subst Kept (sym same_core) kept, inl (same_timer ∙ on))
Quiet-Current s t (same_core, inr (same_timer, same_view)) (kept, inr now) = (
  subst Kept (sym same_core) kept,
  inr (
      ap (λ v. v.3) same_view
      ∙ now
      ∙ ap (λ c. shown_by c (view s)) (sym same_core)
      ∙ ap (shown_by (core t)) (sym same_view)),
)

module _ (replies : Replies) where
  discovered-Quiet :
      (id : Bytes) (s : State) (o : Option Bytes) → Quiet s (discovered replies id s o)
  unfolding discovered schedule_state_update
  discovered-Quiet id s none = (refl, inl refl)
  discovered-Quiet id s (some error) = (refl, inl refl)

  certified-Quiet :
      (p : Members) (id : Bytes) (host : Host) (path : Bytes) (b : Caller)
      → Quiet b.0 (certified replies p id host path b).0
  unfolding certified schedule_state_update
  certified-Quiet p id host [] b = (refl, inl refl)
  certified-Quiet p id host (c ∷ path) b = (refl, inl refl)

  do_connect_host-Quiet :
      (p : Members) (id : Bytes) (found : Host × Option Bytes) (b : Caller)
      → Quiet b.0 (do_connect_host replies p id found b).0
  unfolding do_connect_host schedule_state_update
  do_connect_host-Quiet p id (host, some error) b = (refl, inl refl)
  do_connect_host-Quiet p id (host, none) b =
      certified-Quiet p id host (replies.persist_certificate host) b

  do_recall-Quiet : (id : Bytes) (may : Bool) (s : State) → Quiet s (do_recall replies id may s)
  unfolding do_recall schedule_state_update
  do_recall-Quiet id true s = (refl, inl refl)
  do_recall-Quiet id false s = (refl, inr (refl, refl))

  do_choose_mode-Quiet :
      (t : Bytes) (p : Members) (id : Bytes) (o : Option (Bytes → Json)) (b : Caller)
      → Quiet b.0 (do_choose_mode replies t p id o b).0
  unfolding do_choose_mode schedule_state_update
  do_choose_mode-Quiet t p id none b = (refl, inr (refl, refl))
  do_choose_mode-Quiet t p id (some getter) b = (refl, inl refl)

  do_frames-Quiet :
      (p : Members) (o : Option (Bytes → Json)) (b : Caller) → Quiet b.0 (do_frames replies p o b).0
  unfolding do_frames schedule_state_update
  do_frames-Quiet p none b = (refl, inr (refl, refl))
  do_frames-Quiet p (some getter) b = (refl, inl refl)

  take_branch-Quiet :
      (t : Bytes) (branch : Branch) (p : Members) (id : Bytes) (b : Caller)
      → Quiet b.0 (take_branch replies t branch p id b).0
  unfolding take_branch schedule_state_update
  take_branch-Quiet t (answered call) p id b = (refl, inl refl)
  take_branch-Quiet t (awaited call) p id b = (refl, inl refl)
  take_branch-Quiet t (handed_on call) p id b = (refl, inr (refl, refl))
  take_branch-Quiet t discover p id (s, calls) = discovered-Quiet id s replies.refresh_error
  take_branch-Quiet t report p id b = (refl, inr (refl, refl))
  take_branch-Quiet t frames p id (s, calls) = do_frames-Quiet p s.window.performance (s, calls)
  take_branch-Quiet t connect_host p id b =
      do_connect_host-Quiet p id (replies.connect_data (field (codes "hostId") p)) b
  take_branch-Quiet t recall p id (s, calls) =
      do_recall-Quiet id (replies.may_recall (field (codes "messageId") p)) s
  take_branch-Quiet t choose_mode p id (s, calls) =
      do_choose_mode-Quiet t p id s.window.performance (s, calls)
  take_branch-Quiet t logging p id b = (refl, inl refl)

  chosen_branch-Quiet :
      (t : Bytes) (o : Option (Members → Bytes → Branch)) (p : Members) (id : Bytes) (b : Caller)
      → Quiet b.0 (chosen_branch replies t o p id b).0
  unfolding schedule_state_update
  chosen_branch-Quiet t none p id b = (refl, inl refl)
  chosen_branch-Quiet t (some branch) p id b = take_branch-Quiet t (branch p id) p id b

  pub dispatch-Quiet :
      (qt : Qt) (texts : Texts) (document : Option Json) (b : Caller)
      → Quiet b.0 (dispatch replies qt texts document b).0
  unfolding dispatch
  dispatch-Quiet qt texts document (s, calls) =
      let command = to_object document in
      elim (Bool-cases (is_object document)) [
        | inr e ↦ rw e (refl, inr (refl, refl))
        | inl e ↦ elim (Bool-cases (validate_command qt command).0) [
          | inr bad ↦ rw (e, bad) (refl, inr (refl, refl))
          | inl ok ↦
              rw (e, ok)
                (chosen_branch-Quiet texts.capability_text
                  (branch_of replies (entries replies) (to_text (get (codes "type") command)))
                  (to_object (get (codes "payload") command)) (to_text (get (codes "id") command))
                  (s, calls))
        ]
      ]
