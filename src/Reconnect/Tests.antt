-- ===== src/Reconnect/Tests.antt =====
-- The theorems about connecting again at concrete calls.
use cross_language_lan_chatr.Prelude.{◌+◌, ◌≡◌, List, [], ◌∷◌}
use cross_language_lan_chatr.Reconnect.{new_policy}
use cross_language_lan_chatr.Reconnect.Policy.{
  Call, schedules, connects, cancels, run, run-generation,
}

abbrev calls : List Call
calls = schedules ∷ cancels ∷ connects ∷ schedules ∷ []

run-generation_example : (run new_policy calls).generation ≡ 0 + 2
run-generation_example = run-generation new_policy calls
