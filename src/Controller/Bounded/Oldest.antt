-- ===== src/Controller/Bounded/Oldest.antt =====
-- The search for the conversation to make room (client-cpp/gui/src/gui_chat_controller.cpp).
use cross_language_lan_chatr.Prelude.{
  ℕ, suc, ◌<◌, ◌≡◌, refl, sym, ap, ◌∙◌, subst, true, false, ◌||◌, ◌⊎◌, List, [], ◌∷◌, arith,
  if◌then◌else◌, ltb, lt→ltb, All, inl, inr, Bool-cases, is_empty, Bytes, same, same_refl,
}
use cross_language_lan_chatr.Prelude.Map.{bytes_eq}
use cross_language_lan_chatr.Controller.{Values, older, oldest, max_order, order_of}
use cross_language_lan_chatr.Controller.Bounded.Counts.{count, Named, spare}

module _ (values : Values) (active kept : Bytes) (order : List (Bytes × ℕ)) where
  abbrev pub Early : Bytes × ℕ → Type 0
  Early entry = Named entry × (order_of order entry.0 < max_order)

  pub oldest-Named :
      (models : List (Bytes × ℕ)) (best : Bytes × ℕ)
      → All Early models
      → (is_empty best.0 ≡ false) ⊎ ((best.1 ≡ max_order) × (spare active kept models ≡ true))
      → is_empty (oldest values active kept order models best).0 ≡ false
  unfolding oldest
  oldest-Named [] best h (inl named) = named
  oldest-Named [] best h (inr (at, none_left)) = absurd (cc none_left)
  oldest-Named ((key, i) ∷ models) best ((named, early), rest) h =
      oldest-Named models (older values active kept order key best) rest
        (elim (Bool-cases (same key active || same key kept)) [
          | inl held ↦ rw held (rw held at h)
          | inr free ↦ elim (Bool-cases (ltb (order_of order key) best.1)) [
            | inl before ↦ rw (free, before) (inl named)
            | inr after ↦ rw (free, after) (chosen after h)
          ]
        ])
    where
      chosen :
          ltb (order_of order key) best.1 ≡ false
          → (is_empty best.0 ≡ false)
            ⊎ ((best.1 ≡ max_order) × (spare active kept ((key, i) ∷ models) ≡ true))
          → (is_empty best.0 ≡ false) ⊎ ((best.1 ≡ max_order) × (spare active kept models ≡ true))
      chosen after (inl n) = inl n
      chosen after (inr (at, left)) =
          let below : ltb (order_of order key) best.1 ≡ true = rw at (lt→ltb _ _ early) in
          absurd (cc (sym after, below))

  older-cases :
      (key : Bytes) (best : Bytes × ℕ)
      → (older values active kept order key best ≡ best)
        ⊎ ((older values active kept order key best).0 ≡ key)
  older-cases key best = elim (Bool-cases (same key active || same key kept)) [
    | inl held ↦ inl (rw held refl)
    | inr free ↦ elim (Bool-cases (ltb (order_of order key) best.1)) [
      | inl before ↦ inr (rw (free, before) refl)
      | inr after ↦ inl (rw (free, after) refl)
    ]
  ]

  pub oldest-count :
      (models : List (Bytes × ℕ)) (best : Bytes × ℕ)
      → ((oldest values active kept order models best).0 ≡ best.0)
        ⊎ (0 < count (oldest values active kept order models best).0 models)
  unfolding oldest count
  oldest-count [] best = inl refl
  oldest-count ((key, i) ∷ models) best =
      elim (oldest-count models (older values active kept order key best)) [
        | inl chosen ↦ elim (older-cases key best) [
          | inl e ↦ inl (chosen ∙ ap (λ b. b.0) e)
          | inr k ↦ inr (
              subst (λ j. 0 < (if same key j then suc (count j models) else count j models))
                (sym (chosen ∙ k)) first)
        ]
        | inr more ↦ inr (grown _ more)
      ]
    where
      first : 0 < (if same key key then suc (count key models) else count key models)
      first = let self = same_refl key in rw self (omega arith)

      grown :
          (j : Bytes)
          → 0 < count j models
          → 0 < (if same key j then suc (count j models) else count j models)
      grown j h = ground arith
