-- ===== src/PerformanceProfile.antt =====
-- The effects that the window can afford: client-cpp/gui/src/performance_profile.hpp and .cpp. The
-- arithmetic of `double` is the parameter `Reals`, `QString::trimmed` a function; the signals to the
-- views are left out, and `stored_mode` is
-- the mode that has been written to the settings.
pub mod Hysteresis
pub mod Calls
mod Tests
use cross_language_lan_chatr.Prelude.{
  ℕ, zero, suc, ◌+◌, ◌-◌, ◌*◌, ◌/◌, min, Bool, true, false, not, ◌&&◌, ◌||◌, Option, none, some,
  List, [], ◌∷◌, ◌++◌, if◌then◌else◌, ltb, leb, ◌==◌, length, is_empty, drop, Bytes, codes, same,
}

-- Numbers of type `double`: `fps` is a count of frames in a time of milliseconds, in seconds.
pub record Reals : Type 1 where
  pub Value : Type 0
  pub zero_value : Value
  pub sixty : Value
  pub balanced_threshold_ms : Value
  pub power_saving_threshold_ms : Value
  pub add : Value → Value → Value
  pub larger : Value → Value → Value
  pub fps : ℕ → Value → Value
  pub below : Value → Value → Bool
  pub is_finite : Value → Bool

pub data Mode : Type 0 where
  automatic high balanced power_saving : Mode

pub data AutomaticReason : Type 0 where
  software_rendering no_hardware_acceleration refresh_rate_limit waiting_for_samples :
      AutomaticReason
  p95_over_40ms p95_over_16_7ms stable manual_selection : AutomaticReason

-- The scale of an animation's duration, in quarters.
abbrev pub scale_quarters : Mode → ℕ
scale_quarters high = 4
scale_quarters balanced = 3
scale_quarters _ = 0

abbrev pub same_mode : Mode → Mode → Bool
same_mode automatic automatic = true
same_mode high high = true
same_mode balanced balanced = true
same_mode power_saving power_saving = true
same_mode _ _ = false

abbrev pub frame_window_size : ℕ
frame_window_size = 24

abbrev pub automatic_mode_confirmations : ℕ
automatic_mode_confirmations = 3

unfoldable pub normalize_mode : (Bytes → Bytes) → Bytes → Mode
normalize_mode trimmed mode =
    if same (trimmed mode) (codes "High")
    then high
    else if same (trimmed mode) (codes "Balanced")
    then balanced
    else if same (trimmed mode) (codes "Power Saving")
    then power_saving
    else automatic

module _ (r : Reals) where
  open r use {
    Value, zero_value, sixty, balanced_threshold_ms, power_saving_threshold_ms, add, larger, fps,
    below, is_finite,
  }

  pub record Profile : Type 0 where
    pub mode : Mode
    pub effective_mode : Mode
    pub effects_enabled : Bool
    pub animations_enabled : Bool
    pub gradients_enabled : Bool
    pub animation_duration_scale : ℕ
    pub hardware_acceleration : Bool
    pub software_rendering : Bool
    pub refresh_rate : Value
    pub frame_times : List Value
    pub observed_fps : Value
    pub observed_p95 : Value
    pub observed_max : Value
    pub automatic_reason : AutomaticReason
    pub pending_mode : Option Mode
    pub pending_streak : ℕ
    pub stored_mode : Option Mode

  -- `std::sort`.
  abbrev insert_sorted : Value → List Value → List Value
  insert_sorted v [] = v ∷ []
  insert_sorted v (w ∷ ws) =
      let rest = insert_sorted v ws in if below w v then w ∷ rest else v ∷ w ∷ ws

  abbrev sort : List Value → List Value
  sort [] = []
  sort (v ∷ vs) = insert_sorted v (sort vs)

  abbrev sample_at : List Value → ℕ → Value
  sample_at [] i = zero_value
  sample_at (v ∷ vs) zero = v
  sample_at (v ∷ vs) (suc i) = sample_at vs i

  -- The index is `ceil(0.95 * last)`.
  unfoldable pub p95 : List Value → Value
  p95 samples = sample_at (sort samples) ((95 * (length samples - 1) + 99) / 100)

  abbrev total : Value → List Value → Value
  total acc [] = acc
  total acc (v ∷ vs) = total (add acc v) vs

  abbrev largest : Value → List Value → Value
  largest acc [] = acc
  largest acc (v ∷ vs) = largest (larger acc v) vs

  unfoldable pub recompute_metrics : Profile → Profile
  recompute_metrics p =
      if is_empty p.frame_times
      then record p {
        observed_fps = zero_value;
        observed_p95 = zero_value;
        observed_max = zero_value;
      }
      else record p {
        observed_fps =
            if below zero_value (total zero_value p.frame_times)
            then fps (length p.frame_times) (total zero_value p.frame_times)
            else zero_value;
        observed_p95 = p95 p.frame_times;
        observed_max = largest zero_value p.frame_times;
      }

  unfoldable pub automatic_mode : Profile → Mode
  automatic_mode p =
      if p.software_rendering || not p.hardware_acceleration
      then power_saving
      else if not (below sixty p.refresh_rate)
      then balanced
      else if ltb (length p.frame_times) frame_window_size
      then high
      else if not (below p.observed_p95 power_saving_threshold_ms)
      then power_saving
      else if not (below p.observed_p95 balanced_threshold_ms)
      then balanced
      else high

  unfoldable pub automatic_reason_for_context : Profile → AutomaticReason
  automatic_reason_for_context p =
      if p.software_rendering
      then software_rendering
      else if not p.hardware_acceleration
      then no_hardware_acceleration
      else if not (below sixty p.refresh_rate)
      then refresh_rate_limit
      else if ltb (length p.frame_times) frame_window_size
      then waiting_for_samples
      else if not (below p.observed_p95 power_saving_threshold_ms)
      then p95_over_40ms
      else if not (below p.observed_p95 balanced_threshold_ms)
      then p95_over_16_7ms
      else stable

  abbrev pub hard_limit : Profile → Bool
  hard_limit p =
      p.software_rendering || not p.hardware_acceleration || not (below sixty p.refresh_rate)

  abbrev pub is_pending : Option Mode → Mode → Bool
  is_pending none candidate = false
  is_pending (some mode) candidate = same_mode mode candidate

  -- The next mode, the pending one and its streak.
  abbrev pub Choice : Type 0
  Choice = Mode × Option Mode × ℕ

  abbrev pub confirm : Mode → Mode → ℕ → Choice
  confirm effective candidate streak =
      if leb automatic_mode_confirmations streak
      then (candidate, none, 0)
      else if same_mode effective candidate
      then (effective, none, 0)
      else (effective, some candidate, streak)

  unfoldable pub choose : Profile → Mode → Choice
  choose p candidate =
      if hard_limit p
        || ltb (length p.frame_times) frame_window_size
        || same_mode candidate p.effective_mode
      then (candidate, none, 0)
      else if is_pending p.pending_mode candidate
      then confirm p.effective_mode candidate (p.pending_streak + 1)
      else confirm p.effective_mode candidate 1

  abbrev pub next_choice : Profile → Choice
  next_choice p =
      if same_mode p.mode automatic
      then choose p (automatic_mode p)
      else (p.mode, p.pending_mode, p.pending_streak)

  abbrev pub apply : Profile → Choice → Profile
  apply p (next, pending, streak) = record p {
    effective_mode = next;
    pending_mode = pending;
    pending_streak = streak;
    automatic_reason =
        if same_mode p.mode automatic then automatic_reason_for_context p else manual_selection;
    effects_enabled = not (same_mode next power_saving);
    animations_enabled = not (same_mode next power_saving);
    gradients_enabled = not (same_mode next power_saving);
    animation_duration_scale = scale_quarters next;
  }

  unfoldable pub recompute : Profile → Profile
  recompute p = apply p (next_choice p)

  unfoldable pub set_mode : Profile → Mode → Profile
  set_mode p normalized =
      if same_mode p.mode normalized
      then p
      else recompute (
          recompute_metrics (record p {
            mode = normalized;
            stored_mode = some normalized;
            frame_times = [];
            pending_mode = none;
            pending_streak = 0;
          }))

  unfoldable pub update_graphics_context : Profile → Bool → Bool → Value → Profile
  update_graphics_context p hardware software rate = recompute (record p {
    hardware_acceleration = hardware;
    software_rendering = software;
    refresh_rate = if below zero_value rate then rate else sixty;
  })

  abbrev pub keep_window : List Value → List Value
  keep_window frames = drop (length frames - frame_window_size) frames

  unfoldable pub observe_frame_time : Profile → Value → Profile
  observe_frame_time p frame_ms =
      if not (same_mode p.mode automatic)
        || not (is_finite frame_ms)
        || not (below zero_value frame_ms)
      then p
      else recompute (
          recompute_metrics
            (record p { frame_times = keep_window (p.frame_times ++ frame_ms ∷ []) }))

  abbrev pub unset : Profile
  unset = record {
    mode = automatic;
    effective_mode = balanced;
    effects_enabled = true;
    animations_enabled = true;
    gradients_enabled = true;
    animation_duration_scale = 3;
    hardware_acceleration = false;
    software_rendering = false;
    refresh_rate = sixty;
    frame_times = [];
    observed_fps = zero_value;
    observed_p95 = zero_value;
    observed_max = zero_value;
    automatic_reason = waiting_for_samples;
    pending_mode = none;
    pending_streak = 0;
    stored_mode = none;
  }

  -- `normalized`: the mode of the settings.
  unfoldable pub new_profile : Mode → Profile
  new_profile normalized = recompute (record unset { mode = normalized })
