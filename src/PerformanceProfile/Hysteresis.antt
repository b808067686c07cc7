-- ===== src/PerformanceProfile/Hysteresis.antt =====
-- When the automatic mode changes (performance_profile.cpp).
use cross_language_lan_chatr.Prelude.{
  ℕ, ◌+◌, ◌≤◌, ◌≡◌, ◌≢◌, refl, ap, ◌∙◌, Bool, true, false, ◌||◌, Option, none, some, arith,
  if◌then◌else◌, ltb, leb, length, Bool-cases, inl, inr, if_true, if_false,
}
use cross_language_lan_chatr.PerformanceProfile.{
  Reals, Profile, Mode, automatic, high, balanced, power_saving, same_mode, frame_window_size,
  automatic_mode, hard_limit, is_pending, Choice, confirm, choose, recompute,
}

same_mode→eq : (a b : Mode) → same_mode a b ≡ true → a ≡ b
same_mode→eq automatic automatic h = refl
same_mode→eq high high h = refl
same_mode→eq balanced balanced h = refl
same_mode→eq power_saving power_saving h = refl
same_mode→eq automatic high h = absurd (cc h)
same_mode→eq automatic balanced h = absurd (cc h)
same_mode→eq automatic power_saving h = absurd (cc h)
same_mode→eq high automatic h = absurd (cc h)
same_mode→eq high balanced h = absurd (cc h)
same_mode→eq high power_saving h = absurd (cc h)
same_mode→eq balanced automatic h = absurd (cc h)
same_mode→eq balanced high h = absurd (cc h)
same_mode→eq balanced power_saving h = absurd (cc h)
same_mode→eq power_saving automatic h = absurd (cc h)
same_mode→eq power_saving high h = absurd (cc h)
same_mode→eq power_saving balanced h = absurd (cc h)

module _ (r : Reals) where
  open r use {Value}

  -- Fewer than three confirmations leave the effective mode.
  confirm-few :
      (effective candidate : Mode) (streak : ℕ)
      → leb 3 streak ≡ false
      → (confirm r effective candidate streak).0 ≡ effective
  confirm-few effective candidate streak h = elim (Bool-cases (same_mode effective candidate)) [
    | inl same ↦ rw (h, same) refl
    | inr other ↦ rw (h, other) refl
  ]

  confirm-switch :
      (effective candidate : Mode) (streak : ℕ)
      → (confirm r effective candidate streak).0 ≢ effective
      → (3 ≤ streak) × ((confirm r effective candidate streak).0 ≡ candidate)
  confirm-switch effective candidate streak h = elim (Bool-cases (leb 3 streak)) [
    | inl enough ↦ (ground arith, rw enough refl)
    | inr few ↦ absurd (h (confirm-few effective candidate streak few))
  ]

  is_pending→eq :
      (pending : Option Mode) (candidate : Mode)
      → is_pending r pending candidate ≡ true
      → pending ≡ some candidate
  is_pending→eq none candidate h = absurd (cc h)
  is_pending→eq (some mode) candidate h = ap some (same_mode→eq mode candidate h)

  choose-switch :
      (p : Profile r) (candidate : Mode)
      → hard_limit r p ≡ false
      → ltb (length p.frame_times) frame_window_size ≡ false
      → (choose r p candidate).0 ≢ p.effective_mode
      → ((choose r p candidate).0 ≡ candidate)
        × (p.pending_mode ≡ some candidate)
        × (2 ≤ p.pending_streak)
  unfolding choose
  choose-switch p candidate soft full h =
      let guard =
        hard_limit r p
        || ltb (length p.frame_times) frame_window_size
        || same_mode candidate p.effective_mode in
      let again = confirm r p.effective_mode candidate (p.pending_streak + 1) in
      let once = confirm r p.effective_mode candidate 1 in
      let pending = is_pending r p.pending_mode candidate in
      let inner = if pending then again else once in
      elim (Bool-cases guard) [
        | inl stay ↦
            let chosen = ap (λ c. c.0) (if_true guard (candidate, none, 0) inner stay) in
            absurd
              (h (chosen ∙ same_mode→eq candidate p.effective_mode (third _ _ _ soft full stay)))
        | inr moves ↦ elim (Bool-cases pending) [
          | inl known ↦
              let here =
                if_false guard (candidate, none, 0) inner moves
                ∙ if_true pending again once known in
              let (enough, chosen) =
                confirm-switch p.effective_mode candidate (p.pending_streak + 1)
                  (λ e. h (ap (λ c. c.0) here ∙ e)) in
              (
                ap (λ c. c.0) here ∙ chosen,
                is_pending→eq p.pending_mode candidate known,
                omega arith,
              )
          | inr fresh ↦
              let here =
                if_false guard (candidate, none, 0) inner moves
                ∙ if_false pending again once fresh in
              let (enough, chosen) =
                confirm-switch p.effective_mode candidate 1 (λ e. h (ap (λ c. c.0) here ∙ e)) in
              absurd (omega arith)
        ]
      ]
    where
      third : (a b c : Bool) → a ≡ false → b ≡ false → (a || b || c) ≡ true → c ≡ true
      third true b c e f g = absurd (cc e)
      third false true c e f g = absurd (cc f)
      third false false c e f g = g

  -- In the automatic mode, with hardware that sets no limit and a full window of frames, the
  -- effective mode changes only to the mode that the frames ask for, and only if that mode is
  -- pending already, with a streak of at least two.
  pub recompute-switch :
      (p : Profile r)
      → p.mode ≡ automatic
      → hard_limit r p ≡ false
      → ltb (length p.frame_times) frame_window_size ≡ false
      → (recompute r p).effective_mode ≢ p.effective_mode
      → ((recompute r p).effective_mode ≡ automatic_mode r p)
        × (p.pending_mode ≡ some (automatic_mode r p))
        × (2 ≤ p.pending_streak)
  unfolding recompute
  recompute-switch p auto soft full h =
      let is_auto : same_mode p.mode automatic ≡ true = ap (λ m. same_mode m automatic) auto in
      let kept : Choice r = (p.mode, p.pending_mode, p.pending_streak) in
      let here =
        if_true (same_mode p.mode automatic) (choose r p (automatic_mode r p)) kept is_auto in
      let (chosen, pending, streak) =
        choose-switch p (automatic_mode r p) soft full (λ e. h (ap (λ c. c.0) here ∙ e)) in
      (ap (λ c. c.0) here ∙ chosen, pending, streak)
