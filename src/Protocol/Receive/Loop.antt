-- ===== src/Protocol/Receive/Loop.antt =====
-- The loop of `recv_all` of client-cpp/src/protocol.cpp.
use mathlib.Core.List.{append_assoc, append-nil}
use cross_language_lan_chatr.Prelude.{
  ℕ, zero, suc, ◌-◌, ◌≤◌, ◌<◌, ◌≡◌, refl, sym, ap, ◌∙◌, min, Option, some, [], ◌∷◌, ◌++◌, arith,
  length, Bytes, length-append,
}
use cross_language_lan_chatr.Protocol.{
  Channel, World, Errors, RecvResult, recv_error, received, recv_loop, after_recv, int_max,
}

-- What the code relies on: the bytes that a call returns are the next ones of the stream, and no
-- more than were asked for.
pub record Streams (c : Channel) : Type 0 where
  pub incoming : c.Socket → Bytes
  pub recv_incoming :
      (s : c.Socket) (n : ℕ) (bytes : Bytes) (s' : c.Socket)
      → c.recv s n ≡ (received bytes, s')
      → (length bytes ≤ n) × (incoming s ≡ bytes ++ incoming s')

-- While the stream has bytes, a call that asks for some returns one at least.
pub record Flows (c : Channel) (d : Streams c) : Type 0 where
  pub recv_some :
      (s : c.Socket) (n : ℕ)
      → 0 < n
      → 0 < length (d.incoming s)
      → (b : ℕ) × (bs : Bytes) × (s' : c.Socket) × (c.recv s n ≡ (received (b ∷ bs), s'))

-- Two splits of one list: the shorter front is the front of the longer one.
append_split :
    (us vs xs ys : Bytes)
    → xs ++ ys ≡ us ++ vs
    → length us ≤ length xs
    → (ws : Bytes) × (xs ≡ us ++ ws) × (vs ≡ ws ++ ys)
append_split [] vs xs ys e h = (xs, refl, sym e)
append_split (u ∷ us) vs [] ys e h = absurd (omega arith)
append_split (u ∷ us) vs (x ∷ xs) ys e h =
    let (ws, p, q) = append_split us vs xs ys (ground arith) (omega arith) in (ws, ground arith, q)

nil_of_length : (xs : Bytes) → length xs ≡ 0 → xs ≡ []
nil_of_length [] h = refl
nil_of_length (x ∷ xs) h = absurd (omega arith)

module _ (c : Channel) (e : Errors c.Socket) where
  open c use {Socket, recv}

  pub recv_done :
      (fuel : ℕ) (got : Bytes) (w : World Socket) → recv_loop c e fuel 0 got w ≡ some (some got, w)
  unfolding recv_loop
  recv_done zero got w = refl
  recv_done (suc fuel) got w = refl

  after_recv_returns :
      (loop : ℕ → Bytes → World Socket → Option (Option Bytes × World Socket)) (n : ℕ) (got : Bytes)
      (w : World Socket) (r : RecvResult × Socket)
      → ((m : ℕ) (more : Bytes) (v : World Socket)
          → m ≤ n
          → (q : Option Bytes × World Socket) × (loop m more v ≡ some q))
      → (q : Option Bytes × World Socket) × (after_recv c e loop (suc n) got w r ≡ some q)
  unfolding after_recv
  after_recv_returns loop n got w (recv_error, s) ih = (_, refl)
  after_recv_returns loop n got w (received [], s) ih = (_, refl)
  after_recv_returns loop n got w (received (b ∷ bs), s) ih = ih _ _ _ (omega arith)

  pub recv_loop_returns :
      (fuel n : ℕ) (got : Bytes) (w : World Socket)
      → n ≤ fuel
      → (q : Option Bytes × World Socket) × (recv_loop c e fuel n got w ≡ some q)
  unfolding recv_loop
  recv_loop_returns fuel zero got w h = ((some got, w), recv_done fuel got w)
  recv_loop_returns zero (suc n) got w h = absurd (omega arith)
  recv_loop_returns (suc fuel) (suc n) got w h =
      after_recv_returns (recv_loop c e fuel) n got w _
        λ m more v k. recv_loop_returns fuel m more v (omega arith)

  recv_step :
      (fuel n : ℕ) (got : Bytes) (b : ℕ) (bs : Bytes) (w : World Socket) (s : Socket)
      → recv w.socket (min (suc n) int_max) ≡ (received (b ∷ bs), s)
      → (q : Option (Option Bytes × World Socket))
      → recv_loop c e fuel (suc n - length (b ∷ bs)) (got ++ b ∷ bs) (record w { socket = s }) ≡ q
      → recv_loop c e (suc fuel) (suc n) got w ≡ q
  unfolding recv_loop after_recv
  recv_step fuel n got b bs w s r q h = ap (after_recv c e (recv_loop c e fuel) (suc n) got w) r ∙ h

  regroup :
      (got front ws data' : Bytes) (v : World Socket)
      → data' ≡ front ++ ws
      → ◌≡◌ {A = Option (Option Bytes × World Socket)}
          (some (some ((got ++ front) ++ ws), v))
          (some (some (got ++ data'), v))
  regroup got front ws data' v h =
      ap (λ t. some (some t, v)) (append_assoc got front ws ∙ ap (λ t. got ++ t) (sym h))

  module _ (d : Streams c) (f : Flows c d) where
    -- What the loop has taken when `bytes` have come and `ws` is what the rest of it takes.
    takes_rest :
        (fuel n : ℕ) (got bytes data' ws rest : Bytes) (w : World Socket)
        → data' ≡ bytes ++ ws
        → (v : World Socket) × (recv_loop c e fuel n (got ++ bytes) w
            ≡ some (some ((got ++ bytes) ++ ws), v))
          × (d.incoming v.socket ≡ rest)
        → (v : World Socket) × (recv_loop c e fuel n (got ++ bytes) w
            ≡ some (some (got ++ data'), v))
          × (d.incoming v.socket ≡ rest)
    takes_rest fuel n got bytes data' ws rest w front (v, loops, left) =
        (v, loops ∙ regroup got bytes ws data' v front, left)

    takes_round :
        (fuel n : ℕ) (got data' rest : Bytes) (w : World Socket)
        → length data' ≡ suc n
        → d.incoming w.socket ≡ data' ++ rest
        → ((k : ℕ) (more ws : Bytes) (u : World Socket)
            → k ≤ n
            → length ws ≡ k
            → d.incoming u.socket ≡ ws ++ rest
            → (v : World Socket) × (recv_loop c e fuel k more u ≡ some (some (more ++ ws), v))
              × (d.incoming v.socket ≡ rest))
        → (b : ℕ) × (bs : Bytes) × (s : Socket) × (recv w.socket (min (suc n) int_max)
            ≡ (received (b ∷ bs), s))
        → (v : World Socket) × (recv_loop c e (suc fuel) (suc n) got w
            ≡ some (some (got ++ data'), v))
          × (d.incoming v.socket ≡ rest)
    takes_round fuel n got data' rest w l i ih (b, bs, s, r) =
        let (short, split) = d.recv_incoming w.socket (min (suc n) int_max) (b ∷ bs) s r in
        let (ws, front, back) =
          append_split (b ∷ bs) (d.incoming s) data' rest (sym i ∙ split) (omega arith) in
        let (v, loops, left) =
          takes_rest fuel (suc n - length (b ∷ bs)) got (b ∷ bs) data' ws rest
            (record w { socket = s }) front
            (ih (suc n - length (b ∷ bs)) (got ++ b ∷ bs) ws (record w { socket = s }) (omega arith)
              (omega (arith, ap length front, length-append bs ws)) back) in
        (v, recv_step fuel n got b bs w s r (some (some (got ++ data'), v)) loops, left)

    -- The loop takes exactly the bytes that it was asked for off the stream.
    pub recv_loop-takes :
        (fuel n : ℕ) (got data' rest : Bytes) (w : World Socket)
        → n ≤ fuel
        → length data' ≡ n
        → d.incoming w.socket ≡ data' ++ rest
        → (v : World Socket) × (recv_loop c e fuel n got w ≡ some (some (got ++ data'), v))
          × (d.incoming v.socket ≡ rest)
    unfolding recv_loop
    recv_loop-takes fuel zero got data' rest w h l i =
        let none_left = nil_of_length data' l in
        (
          w,
          recv_done fuel got w
              ∙ ap (λ t. some (some t, w))
                  (sym (append-nil got) ∙ ap (λ t. got ++ t) (sym none_left)),
          i ∙ ap (λ t. t ++ rest) none_left,
        )
    recv_loop-takes zero (suc n) got data' rest w h l i = absurd (omega arith)
    recv_loop-takes (suc fuel) (suc n) got data' rest w h l i =
        takes_round fuel n got data' rest w l i
          (λ k more ws u short. recv_loop-takes fuel k more ws rest u (omega arith))
          (f.recv_some w.socket (min (suc n) int_max) (omega arith)
            (omega (arith, ap length i, length-append data' rest)))
