-- ===== src/Reconnect.antt =====
-- When to connect again: client-cpp/gui/src/reconnect_policy.hpp and .cpp of the window, and
-- `ReconnectBackoff` of client-cpp/src/connection.cpp. The counters do not reach the end of `int`.
pub mod Policy
pub mod Backoff
mod Tests
use cross_language_lan_chatr.Prelude.{
  ℕ, zero, suc, ◌+◌, ◌-◌, ◌*◌, ◌^◌, min, Bool, true, false, not, List, [], ◌∷◌, if◌then◌else◌, ltb,
  length, ℤ, pos, negsuc,
}

pub record ReconnectPolicy : Type 0 where
  pub active : Bool
  pub attempt_count : ℕ
  pub generation : ℕ

abbrev pub new_policy : ReconnectPolicy
new_policy = record { active = true; attempt_count = 0; generation = 0 }

abbrev pub initial_delay_ms : ℕ
initial_delay_ms = 500

abbrev pub maximum_delay_ms : ℕ
maximum_delay_ms = 8000

abbrev pub delay_of : ℕ → ℕ
delay_of attempts = min (initial_delay_ms * 2 ^ min attempts 4) maximum_delay_ms

unfoldable pub schedule_next_attempt : ReconnectPolicy → ℤ × ReconnectPolicy
schedule_next_attempt p =
    if not p.active
    then (negsuc 0, p)
    else (pos (delay_of p.attempt_count), record p { attempt_count = p.attempt_count + 1 })

unfoldable pub mark_connected : ReconnectPolicy → ReconnectPolicy
mark_connected p = record p { active = true; attempt_count = 0; generation = p.generation + 1 }

unfoldable pub cancel_policy : ReconnectPolicy → ReconnectPolicy
cancel_policy p = record p { active = false; generation = p.generation + 1 }

-- The delays in seconds.
abbrev pub backoff_delays : List ℕ
backoff_delays = 1 ∷ 2 ∷ 4 ∷ 8 ∷ 16 ∷ 30 ∷ []

unfoldable pub delay_at : List ℕ → ℕ → ℕ
delay_at [] i = 0
delay_at (d ∷ ds) zero = d
delay_at (d ∷ ds) (suc i) = delay_at ds i

pub record ReconnectBackoff : Type 0 where
  pub attempt : ℕ

unfoldable pub next_delay : ReconnectBackoff → ℕ × ReconnectBackoff
unfolding delay_at
next_delay b =
    let size = length backoff_delays in
    let index = if ltb b.attempt size then b.attempt else size - 1 in
    (
      delay_at backoff_delays index,
      record { attempt = if ltb b.attempt size then b.attempt + 1 else b.attempt },
    )

abbrev pub reset : ReconnectBackoff → ReconnectBackoff
reset b = record { attempt = 0 }
