-- ===== src/BenchmarkGate.antt =====
-- The verdict on a benchmark: client-cpp/gui/src/performance_benchmark_gate.hpp and .cpp. The
-- arithmetic of `double` is the parameter `Doubles`.
mod Tests
use cross_language_lan_chatr.Prelude.{
  ℕ, ◌-◌, Bool, true, false, not, ◌||◌, List, [], ◌∷◌, ◌++◌, if◌then◌else◌, is_empty, ℤ, pos,
  pos_part, ltb_ℤ, leb_ℤ,
}

pub record Doubles : Type 1 where
  pub Value : Type 0
  pub below : Value → Value → Bool
  -- The value of a literal of so many tenths.
  pub tenths : ℕ → Value
  pub of_integer : ℤ → Value
  pub times : Value → Value → Value
  pub over : Value → Value → Value

abbrev pub maximum_animation_bursts : ℤ
maximum_animation_bursts = pos 1

pub data Unsupported : Type 0 where
  software_rendering no_hardware_acceleration refresh_rate_below_60hz battery_saver_enabled :
      Unsupported

pub data Failure : Type 0 where
  invalid_working_set_sample working_set_growth p95_over_16_7ms too_many_animation_bursts : Failure

module _ (d : Doubles) where
  open d use {Value, below, tenths, of_integer, times, over}

  abbrev pub minimum_refresh_rate_hz : Value
  minimum_refresh_rate_hz = tenths 600

  abbrev pub maximum_working_set_growth_percent : Value
  maximum_working_set_growth_percent = tenths 150

  abbrev pub maximum_p95_frame_ms : Value
  maximum_p95_frame_ms = tenths 167

  abbrev pub no_growth : Value
  no_growth = tenths 0

  pub record Environment : Type 0 where
    pub hardware_acceleration : Bool
    pub software_rendering : Bool
    pub refresh_rate_hz : Value
    pub battery_saver_enabled : Bool

  pub record Measurements : Type 0 where
    pub warm_up_working_set_bytes : ℤ
    pub peak_working_set_bytes : ℤ
    pub p95_frame_ms : Value
    pub p99_frame_ms : Value
    pub animation_bursts_over_33ms : ℤ

  pub record Verdict : Type 0 where
    pub supported : Bool
    pub passed : Bool
    pub working_set_growth_percent : Value
    pub unsupported_reasons : List Unsupported
    pub failures : List Failure

  abbrev note {ℓ} : {A : Type ℓ} → Bool → A → List A
  note found x = if found then x ∷ [] else []

  abbrev pub reasons : Environment → List Unsupported
  reasons e =
      note e.software_rendering software_rendering
      ++ (note (not e.hardware_acceleration) no_hardware_acceleration
          ++ (note (below e.refresh_rate_hz minimum_refresh_rate_hz) refresh_rate_below_60hz
              ++ note e.battery_saver_enabled battery_saver_enabled))

  abbrev pub invalid_sample : Measurements → Bool
  invalid_sample m =
      leb_ℤ m.warm_up_working_set_bytes (pos 0)
      || ltb_ℤ m.peak_working_set_bytes m.warm_up_working_set_bytes

  -- The guard has left a sample above 0 and a peak that is not below it.
  abbrev pub growth : Measurements → Value
  growth m =
      let warm_up = m.warm_up_working_set_bytes in
      let grown = pos (pos_part m.peak_working_set_bytes - pos_part warm_up) in
      over (times (tenths 1000) (of_integer grown)) (of_integer warm_up)

  abbrev pub growth_of : Measurements → Value
  growth_of m = if invalid_sample m then no_growth else growth m

  abbrev pub working_set_failures : Measurements → List Failure
  working_set_failures m =
      if invalid_sample m
      then invalid_working_set_sample ∷ []
      else note (below maximum_working_set_growth_percent (growth m)) working_set_growth

  abbrev pub failures_of : Measurements → List Failure
  failures_of m =
      working_set_failures m
      ++ (note (below maximum_p95_frame_ms m.p95_frame_ms) p95_over_16_7ms
          ++ note (ltb_ℤ maximum_animation_bursts m.animation_bursts_over_33ms)
              too_many_animation_bursts)

  unfoldable pub evaluate : Environment → Measurements → Verdict
  evaluate e m =
      if not (is_empty (reasons e))
      then record {
        supported = false;
        passed = false;
        working_set_growth_percent = no_growth;
        unsupported_reasons = reasons e;
        failures = [];
      }
      else record {
        supported = true;
        passed = is_empty (failures_of m);
        working_set_growth_percent = growth_of m;
        unsupported_reasons = [];
        failures = failures_of m;
      }
