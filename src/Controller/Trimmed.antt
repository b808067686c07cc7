-- ===== src/Controller/Trimmed.antt =====
-- What trimming the cache of conversations leaves (client-cpp/gui/src/gui_chat_controller.cpp).
use cross_language_lan_chatr.Prelude.{
  ℕ, zero, suc, ◌≡◌, refl, sym, ap, ◌∙◌, Bool, true, false, not, ◌||◌, none, some, List, [], ◌∷◌,
  if_true, if_false, ltb, length, inl, inr, Bool-cases, Option-cases, is_empty, Bytes, same,
  same→eq, same_refl,
}
use cross_language_lan_chatr.Prelude.Map.{lookup, bytes_eq, lookup-insert, lookup-erase}
use cross_language_lan_chatr.Controller.{
  Values, State, older, oldest, victim, forget, trim_loop, trim_conversation_model_cache, used,
  created, ensure_conversation_model, max_order, max_cached_conversation_models, order_of,
}

module _ (values : Values) where
  -- The conversation that is chosen has no name, or is neither shown nor the one to keep.
  abbrev pub Evictable : Bytes → Bytes → Bytes → Type 0
  Evictable active kept key =
      (is_empty key ≡ false) → (same key active ≡ false) × (same key kept ≡ false)

  pub oldest-Evictable :
      (active kept : Bytes) (order models : List (Bytes × ℕ)) (best : Bytes × ℕ)
      → Evictable active kept best.0
      → Evictable active kept (oldest values active kept order models best).0
  unfolding oldest
  oldest-Evictable active kept order [] best h = h
  oldest-Evictable active kept order ((key, i) ∷ models) best h =
      oldest-Evictable active kept order models (older values active kept order key best)
        (round (same key active) (same key kept) refl refl)
    where
      round :
          (a b : Bool)
          → same key active ≡ a
          → same key kept ≡ b
          → Evictable active kept (older values active kept order key best).0
      round true b ea eb = rw ea h
      round false true ea eb = rw (ea, eb) h
      round false false ea eb = elim (Bool-cases (ltb (order_of order key) best.1)) [
        | inl before ↦ rw (ea, eb, before) (λ _. (ea, eb))
        | inr after ↦ rw (ea, eb, after) h
      ]

  -- What trimming leaves as it was.
  pub record Trimmed (kept : Bytes) (s t : State values) : Type 0 where
    pub active : t.active ≡ s.active
    pub message_model : t.message_model ≡ s.message_model
    pub shown_model : lookup s.active t.models ≡ lookup s.active s.models
    pub kept_model : lookup kept t.models ≡ lookup kept s.models

  pub forget-lookup :
      (gone key : Bytes) (s : State values)
      → same gone key ≡ false
      → lookup key (forget values gone s).models ≡ lookup key s.models
  forget-lookup gone key s other = lookup-erase gone key s.models ∙ rw other refl

  pub trim_loop-Trimmed :
      (fuel : ℕ) (kept : Bytes) (s : State values) → Trimmed kept s (trim_loop values fuel kept s)
  unfolding trim_loop
  trim_loop-Trimmed zero kept s = record {
    active = refl;
    message_model = refl;
    shown_model = refl;
    kept_model = refl;
  }
  trim_loop-Trimmed (suc fuel) kept s =
      let gone = victim values kept s in
      let later = trim_loop-Trimmed fuel kept (forget values gone s) in
      let chosen =
        oldest-Evictable s.active kept s.order s.models ([], max_order) (λ e. absurd (cc e)) in
      elim (Bool-cases
        (not (ltb max_cached_conversation_models (length s.models)) || is_empty gone)) [
          | inl stop ↦
              rw stop record {
                active = refl;
                message_model = refl;
                shown_model = refl;
                kept_model = refl;
              }
          | inr go ↦
              let (not_shown, not_kept) = chosen (named _ _ go) in
              rw go record {
                active = later.active;
                message_model = later.message_model;
                shown_model = later.shown_model ∙ forget-lookup gone s.active s not_shown;
                kept_model = later.kept_model ∙ forget-lookup gone kept s not_kept;
              }
        ]
    where
      named : (b c : Bool) → b || c ≡ false → c ≡ false
      named false c e = e
      named true c e = absurd (cc e)

  -- The view shows the model that is cached for the conversation that is open.
  abbrev pub Shown : State values → Type 0
  Shown s = lookup s.active s.models ≡ some s.message_model

  pub record Ensured (key : Bytes) (s : State values) (r : ℕ × State values) : Type 0 where
    pub shown : Shown s → Shown r.1
    pub cached : lookup key r.1.models ≡ some r.0
    pub active : r.1.active ≡ s.active

  pub ensure-Ensured :
      (key : Bytes) (s : State values) → Ensured key s (ensure_conversation_model values key s)
  unfolding ensure_conversation_model
  ensure-Ensured key s = elim (Option-cases (lookup key s.models)) [
    | inr (i, there) ↦ rw there record { shown = λ h. h; cached = there; active = refl }
    | inl missing ↦
        let t = used values key (created values key s) in
        let trimmed = trim_loop-Trimmed (length t.models) key t in
        rw missing record {
          shown = λ h.
              ap (λ a. lookup a (trim_conversation_model_cache values key t).models) trimmed.active
              ∙ trimmed.shown_model
              ∙ lookup-insert key s.active s.next s.models
              ∙ if_false (same key s.active) (some s.next) (lookup s.active s.models)
                  (apart h missing (same key s.active) refl)
              ∙ h
              ∙ ap some (sym trimmed.message_model);
          cached =
              trimmed.kept_model
              ∙ lookup-insert key key s.next s.models
              ∙ if_true (same key key) (some s.next) (lookup key s.models) (same_refl key);
          active = trimmed.active;
        }
  ]
    where
      apart :
          Shown s
          → lookup key s.models ≡ none
          → (b : Bool) → same key s.active ≡ b
          → same key s.active ≡ false
      apart h missing true e =
          let at = same→eq key s.active e in
          absurd (cc (sym h, ap (λ k. lookup k s.models) (sym at), missing))
      apart h missing false e = e
