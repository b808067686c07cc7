-- ===== src/Reconnect/Backoff.antt =====
-- The delays of the connection (`ReconnectBackoff` of client-cpp/src/connection.cpp).
use cross_language_lan_chatr.Prelude.{ℕ, zero, suc, ◌+◌, ◌≡◌, refl, ap, List, [], ◌∷◌, arith}
use cross_language_lan_chatr.Reconnect.{ReconnectBackoff, next_delay, delay_at, reset}

-- The next delays in their order.
unfoldable pub next_delays : ℕ → ReconnectBackoff → List ℕ
next_delays zero b = []
next_delays (suc n) b = let (d, b') = next_delay b in d ∷ next_delays n b'

abbrev pub thirties : ℕ → List ℕ
thirties zero = []
thirties (suc n) = 30 ∷ thirties n

next_delays-worn : (n : ℕ) (b : ReconnectBackoff) → b.attempt ≡ 6 → next_delays n b ≡ thirties n
unfolding next_delays next_delay delay_at
next_delays-worn zero b e = refl
next_delays-worn (suc n) b e = rw e (ap (◌∷◌ 30) (next_delays-worn n (record { attempt = 6 }) refl))

-- After a reset the delays are 1, 2, 4, 8 and 16 seconds, and 30 seconds from then on, however many
-- attempts follow.
pub next_delays-reset :
    (n : ℕ) (b : ReconnectBackoff)
    → next_delays (n + 6) (reset b) ≡ 1 ∷ 2 ∷ 4 ∷ 8 ∷ 16 ∷ 30 ∷ thirties n
unfolding next_delays next_delay delay_at
next_delays-reset n b =
    let six_more : n + 6 ≡ suc (suc (suc (suc (suc (suc n))))) = omega arith in
    rw six_more
      (ap (λ ds. 1 ∷ 2 ∷ 4 ∷ 8 ∷ 16 ∷ 30 ∷ ds) (next_delays-worn n (record { attempt = 6 }) refl))
