-- ===== src/PerformanceProfile/Calls.antt =====
-- Every sequence of calls on a profile (performance_profile.cpp).
use cross_language_lan_chatr.Prelude.{
  ℕ, ◌+◌, ◌-◌, ◌≤◌, ◌≡◌, refl, Bool, true, false, not, ◌||◌, none, List, [], ◌∷◌, ◌++◌, arith,
  if◌then◌else◌, ltb, leb, length, length-drop, is_empty, Bool-cases, inl, inr,
}
use cross_language_lan_chatr.PerformanceProfile.{
  Reals, Profile, Mode, automatic, power_saving, same_mode, frame_window_size, automatic_mode,
  hard_limit, is_pending, Choice, confirm, choose, recompute, recompute_metrics, set_mode,
  update_graphics_context, observe_frame_time, new_profile,
}

module _ (r : Reals) where
  open r use {Value, is_finite, below, zero_value}

  pub data Call : Type 0 where
    sets_mode : Mode → Call
    updates_graphics : Bool → Bool → Value → Call
    observes : Value → Call

  unfoldable pub step : Profile r → Call → Profile r
  step p (sets_mode mode) = set_mode r p mode
  step p (updates_graphics hardware software rate) =
      update_graphics_context r p hardware software rate
  step p (observes frame_ms) = observe_frame_time r p frame_ms

  unfoldable pub run : Profile r → List Call → Profile r
  run p [] = p
  run p (call ∷ calls) = run (step p call) calls

  pub record IsValid (p : Profile r) : Type 0 where
    pub window : length p.frame_times ≤ 24
    pub streak : p.pending_streak ≤ 2
    pub effects : p.effects_enabled ≡ not (same_mode p.effective_mode power_saving)
    pub animations : p.animations_enabled ≡ not (same_mode p.effective_mode power_saving)

  confirm-streak : (e c : Mode) (n : ℕ) → (confirm r e c n).2 ≤ 2
  confirm-streak e c n = elim (Bool-cases (leb 3 n)) [
    | inl enough ↦ rw enough (omega arith)
    | inr few ↦ elim (Bool-cases (same_mode e c)) [
      | inl same ↦ rw (few, same) (omega arith)
      | inr other ↦ rw (few, other) (ground arith)
    ]
  ]

  either : (b : Bool) (c d : Choice r) → c.2 ≤ 2 → d.2 ≤ 2 → (if b then c else d).2 ≤ 2
  either true c d h k = h
  either false c d h k = k

  choose-streak : (p : Profile r) (c : Mode) → (choose r p c).2 ≤ 2
  unfolding choose
  choose-streak p c =
      either
        (hard_limit r p
          || ltb (length p.frame_times) frame_window_size
          || same_mode c p.effective_mode)
        (c, none, 0) _ (omega arith)
        (either (is_pending r p.pending_mode c)
          (confirm r p.effective_mode c (p.pending_streak + 1)) (confirm r p.effective_mode c 1)
          (confirm-streak p.effective_mode c (p.pending_streak + 1))
          (confirm-streak p.effective_mode c 1))

  recompute-IsValid :
      (p : Profile r) → length p.frame_times ≤ 24 → p.pending_streak ≤ 2 → IsValid (recompute r p)
  unfolding recompute
  recompute-IsValid p w s = record {
    window = w;
    streak =
        either (same_mode p.mode automatic) (choose r p (automatic_mode r p))
          (p.mode, p.pending_mode, p.pending_streak) (choose-streak p (automatic_mode r p)) s;
    effects = refl;
    animations = refl;
  }

  measured-IsValid :
      (p : Profile r)
      → length p.frame_times ≤ 24
      → p.pending_streak ≤ 2
      → IsValid (recompute r (recompute_metrics r p))
  unfolding recompute_metrics
  measured-IsValid p w s = elim (Bool-cases (is_empty p.frame_times)) [
    | inl none_seen ↦ recompute-IsValid (recompute_metrics r p) (rw none_seen w) (rw none_seen s)
    | inr seen ↦ recompute-IsValid (recompute_metrics r p) (rw seen w) (rw seen s)
  ]

  kept_or : (b : Bool) (p q : Profile r) → IsValid p → IsValid q → IsValid (if b then p else q)
  kept_or true p q h k = h
  kept_or false p q h k = k

  step-IsValid : (p : Profile r) (call : Call) → IsValid p → IsValid (step p call)
  unfolding step set_mode update_graphics_context observe_frame_time
  step-IsValid p (sets_mode mode) h =
      kept_or (same_mode p.mode mode) p _ h (measured-IsValid _ (omega arith) (omega arith))
  step-IsValid p (updates_graphics hardware software rate) h = recompute-IsValid _ h.window h.streak
  step-IsValid p (observes frame_ms) h =
      let frames = p.frame_times ++ frame_ms ∷ [] in
      kept_or
        (not (same_mode p.mode automatic)
          || not (is_finite frame_ms)
          || not (below zero_value frame_ms))
        p _ h (measured-IsValid _ (omega (arith, length-drop (length frames - 24) frames)) h.streak)

  run-IsValid : (p : Profile r) (calls : List Call) → IsValid p → IsValid (run p calls)
  unfolding run
  run-IsValid p [] h = h
  run-IsValid p (call ∷ calls) h = run-IsValid (step p call) calls (step-IsValid p call h)

  -- After any sequence of calls on a new profile the window holds at most 24 frame times, fewer
  -- than three confirmations are remembered, and effects and animations are on exactly if the
  -- effective mode does not save power.
  pub run-new_profile : (mode : Mode) (calls : List Call) → IsValid (run (new_profile r mode) calls)
  unfolding new_profile
  run-new_profile mode calls = run-IsValid _ calls (recompute-IsValid _ (omega arith) (omega arith))
