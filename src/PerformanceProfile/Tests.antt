-- ===== src/PerformanceProfile/Tests.antt =====
-- The theorems about the profile at concrete calls, with whole milliseconds for `double`.
use cross_language_lan_chatr.Prelude.{
  ℕ, ◌+◌, ◌*◌, ◌/◌, ◌≤◌, ◌≡◌, ◌≢◌, refl, max, true, some, ltb, replicate,
}
use cross_language_lan_chatr.PerformanceProfile.{
  Reals, Profile, high, power_saving, unset, automatic_mode, choose, recompute,
}
use cross_language_lan_chatr.PerformanceProfile.Hysteresis.{recompute-switch}

abbrev whole : Reals
whole = record {
  Value = ℕ;
  zero_value = 0;
  sixty = 60;
  balanced_threshold_ms = 17;
  power_saving_threshold_ms = 40;
  add = λ a b. a + b;
  larger = λ a b. max a b;
  fps = λ n t. n * 1000 / t;
  below = ltb;
  is_finite = λ v. true;
}

-- A fast screen on which the frames have become slow, twice confirmed.
abbrev slow : Profile whole
slow = record (unset whole) {
  effective_mode = high;
  hardware_acceleration = true;
  refresh_rate = 144;
  frame_times = replicate 24 50;
  observed_p95 = 50;
  pending_mode = some power_saving;
  pending_streak = 2;
}

slow-switches : (recompute whole slow).effective_mode ≡ power_saving
unfolding recompute automatic_mode choose
slow-switches = refl

slow-changes : (recompute whole slow).effective_mode ≢ slow.effective_mode
unfolding recompute automatic_mode choose
slow-changes e = absurd (cc e)

recompute-switch_example :
    ((recompute whole slow).effective_mode ≡ automatic_mode whole slow)
    × (some power_saving ≡ some (automatic_mode whole slow))
    × (2 ≤ 2)
recompute-switch_example = recompute-switch whole slow refl refl refl slow-changes
