-- ===== src/Reconnect/Policy.antt =====
-- The attempts of the window's policy (reconnect_policy.cpp).
use cross_language_lan_chatr.Prelude.{
  ℕ, zero, suc, ◌+◌, ◌*◌, ◌^◌, ◌≤◌, ◌≡◌, refl, sym, ap, ◌∙◌, min, Bool, true, false, not, List, [],
  ◌∷◌, arith, pos, negsuc, Bool-cases, inl, inr,
}
use cross_language_lan_chatr.Reconnect.{
  ReconnectPolicy, delay_of, schedule_next_attempt, mark_connected, cancel_policy,
}

pub data Call : Type 0 where
  schedules connects cancels : Call

unfoldable pub step : ReconnectPolicy → Call → ReconnectPolicy
step p schedules = (schedule_next_attempt p).1
step p connects = mark_connected p
step p cancels = cancel_policy p

unfoldable pub run : ReconnectPolicy → List Call → ReconnectPolicy
run p [] = p
run p (call ∷ calls) = run (step p call) calls

-- How often the connection was made or given up.
abbrev pub changes : List Call → ℕ
changes [] = 0
changes (schedules ∷ calls) = changes calls
changes (connects ∷ calls) = suc (changes calls)
changes (cancels ∷ calls) = suc (changes calls)

schedule-generation : (p : ReconnectPolicy) → (schedule_next_attempt p).1.generation ≡ p.generation
unfolding schedule_next_attempt
schedule-generation p = elim (Bool-cases (not p.active)) [
  | inl off ↦ rw off refl
  | inr on ↦ rw on refl
]

-- After any sequence of calls the generation has grown by the number of connections and
-- cancellations among them.
pub run-generation :
    (p : ReconnectPolicy) (calls : List Call)
    → (run p calls).generation ≡ p.generation + changes calls
unfolding run step mark_connected cancel_policy
run-generation p [] = omega arith
run-generation p (schedules ∷ calls) =
    omega (arith, run-generation (schedule_next_attempt p).1 calls, schedule-generation p)
run-generation p (connects ∷ calls) = omega (arith, run-generation (mark_connected p) calls)
run-generation p (cancels ∷ calls) = omega (arith, run-generation (cancel_policy p) calls)

-- The calls that do not connect.
abbrev pub no_connect : List Call → Bool
no_connect [] = true
no_connect (connects ∷ calls) = false
no_connect (schedules ∷ calls) = no_connect calls
no_connect (cancels ∷ calls) = no_connect calls

run-inactive :
    (p : ReconnectPolicy) (calls : List Call)
    → p.active ≡ false
    → no_connect calls ≡ true
    → (run p calls).active ≡ false
unfolding run step cancel_policy schedule_next_attempt
run-inactive p [] h k = h
run-inactive p (schedules ∷ calls) h k =
    run-inactive (schedule_next_attempt p).1 calls (rw h refl) k
run-inactive p (connects ∷ calls) h k = absurd (cc k)
run-inactive p (cancels ∷ calls) h k = run-inactive (cancel_policy p) calls refl k

-- After a cancellation no attempt is scheduled, whatever is called, until a connection is made.
pub cancel_policy-stays :
    (p : ReconnectPolicy) (calls : List Call)
    → no_connect calls ≡ true
    → (schedule_next_attempt (run (cancel_policy p) calls)).0 ≡ negsuc 0
unfolding schedule_next_attempt cancel_policy
cancel_policy-stays p calls k = rw (run-inactive (cancel_policy p) calls refl k) refl

delay_of-doubles : (n : ℕ) → delay_of (suc n) ≡ min (2 * delay_of n) 8000
delay_of-doubles zero = refl
delay_of-doubles (suc zero) = refl
delay_of-doubles (suc (suc zero)) = refl
delay_of-doubles (suc (suc (suc zero))) = refl
delay_of-doubles (suc (suc (suc (suc n)))) =
    let next : min (suc (suc (suc (suc (suc n))))) 4 ≡ 4 = omega arith in
    let this : min (suc (suc (suc (suc n)))) 4 ≡ 4 = omega arith in
    ap (λ k. min (500 * 2 ^ k) 8000) next
    ∙ sym (ap (λ k. min (2 * min (500 * 2 ^ k) 8000) 8000) this)

delay_of-bounds : (n : ℕ) → (500 ≤ delay_of n) × (delay_of n ≤ 8000)
delay_of-bounds zero = (omega arith, omega arith)
delay_of-bounds (suc n) =
    let (low, high) = delay_of-bounds n in
    let doubled : delay_of (suc n) ≡ min (2 * delay_of n) 8000 = delay_of-doubles n in
    (omega (arith, low, doubled), omega (arith, high, doubled))

-- An active policy waits between half a second and eight seconds before an attempt, and before the
-- next one twice as long, up to eight seconds.
pub schedule_next_attempt-doubles :
    (p : ReconnectPolicy)
    → p.active ≡ true
    → (d : ℕ) × (500 ≤ d)
      × (d ≤ 8000)
      × ((schedule_next_attempt p).0 ≡ pos d)
      × ((schedule_next_attempt (schedule_next_attempt p).1).0 ≡ pos (min (2 * d) 8000))
unfolding schedule_next_attempt
schedule_next_attempt-doubles p h =
    let (low, high) = delay_of-bounds p.attempt_count in
    let one_more : p.attempt_count + 1 ≡ suc p.attempt_count = omega arith in
    let doubled = ap delay_of one_more ∙ delay_of-doubles p.attempt_count in
    (delay_of p.attempt_count, low, high, rw h refl, rw h (ap pos doubled))
