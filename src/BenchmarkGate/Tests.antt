-- ===== src/BenchmarkGate/Tests.antt =====
-- The verdict of client-cpp/gui/src/performance_benchmark_gate.cpp at concrete runs, with fractions for
-- `double`.
use cross_language_lan_chatr.Prelude.{
  ℕ, ◌≡◌, ◌*◌, refl, true, false, [], ◌∷◌, ltb, ℤ, pos, pos_part,
}
use cross_language_lan_chatr.BenchmarkGate.{
  Doubles, Environment, Measurements, refresh_rate_below_60hz, working_set_growth, p95_over_16_7ms,
  evaluate,
}

-- Numerator and denominator, which is not 0.
abbrev fractions : Doubles
fractions = record {
  Value = ℕ × ℕ;
  below = λ a b. ltb (a.0 * b.1) (b.0 * a.1);
  tenths = λ n. (n, 10);
  of_integer = λ i. (pos_part i, 1);
  times = λ a b. (a.0 * b.0, a.1 * b.1);
  over = λ a b. (a.0 * b.1, a.1 * b.0);
}

abbrev machine : ℕ → Environment fractions
machine tenths_of_hz = record {
  hardware_acceleration = true;
  software_rendering = false;
  refresh_rate_hz = (tenths_of_hz, 10);
  battery_saver_enabled = false;
}

abbrev sample : ℤ → ℕ → Measurements fractions
sample peak tenths_of_ms = record {
  warm_up_working_set_bytes = pos 200;
  peak_working_set_bytes = peak;
  p95_frame_ms = (tenths_of_ms, 10);
  p99_frame_ms = (200, 10);
  animation_bursts_over_33ms = pos 1;
}

at_the_limits : (evaluate fractions (machine 600) (sample (pos 230) 167)).passed ≡ true
unfolding evaluate
at_the_limits = refl

slow_display :
    (evaluate fractions (machine 599) (sample (pos 230) 167)).unsupported_reasons
    ≡ refresh_rate_below_60hz ∷ []
unfolding evaluate
slow_display = refl

over_the_limits :
    (evaluate fractions (machine 600) (sample (pos 231) 168)).failures
    ≡ working_set_growth ∷ p95_over_16_7ms ∷ []
unfolding evaluate
over_the_limits = refl
