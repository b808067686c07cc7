-- ===== src/Protocol/Receive.antt =====
-- `recv_all` and `recv_frame` of client-cpp/src/protocol.cpp: frames are put together again however
-- the socket splits the stream.
pub mod Loop
use mathlib.Core.List.{append_assoc, append-nil}
use cross_language_lan_chatr.Prelude.{
  ℕ, zero, suc, ◌-◌, ◌≤◌, ◌<◌, ◌≡◌, refl, sym, ap, ◌∙◌, min, false, ◌||◌, Option, none, some, [],
  ◌∷◌, ◌++◌, arith, ltb, ◌==◌, length, Bytes, length-append, Bool-cases, inl, inr,
}
use cross_language_lan_chatr.Protocol.Frame.{
  frame, IsPayload, decode-encode_length, length-encode_length,
}
use cross_language_lan_chatr.Protocol.{
  Channel, World, Errors, RecvResult, recv_error, received, recv_loop, after_recv, recv_all,
  recv_payload, after_header, recv_frame, encode_length, decode_length, max_message_size, int_max,
}
use cross_language_lan_chatr.Protocol.Receive.Loop.{
  recv_done, recv_loop_returns, recv_loop-takes, Streams, Flows,
}

module _ (c : Channel) (e : Errors c.Socket) where
  open c use {Socket, recv}

  -- `recv_frame` returns, whatever the socket does.
  pub recv_frame_returns :
      (w : World Socket) → (q : Option Bytes × World Socket) × (recv_frame c e w ≡ some q)
  unfolding recv_frame recv_all
  recv_frame_returns w = returns (recv_loop_returns c e 4 4 [] w (omega arith))
    where
      payload :
          (n : ℕ) (v : World Socket)
          → (q : Option Bytes × World Socket) × (recv_payload c e n v ≡ some q)
      payload n v = elim (Bool-cases (n == 0 || ltb max_message_size n)) [
        | inl bad ↦ ((none, record v { last_error = some (e.incoming n) }), rw bad)
        | inr fits ↦ rw fits (recv_loop_returns c e n n [] v (omega arith))
      ]

      returns :
          {m : Option (Option Bytes × World Socket)}
          → (q : Option Bytes × World Socket) × (m ≡ some q)
          → (q : Option Bytes × World Socket) × (after_header c e m ≡ some q)
      returns ((none, v), h) = ((none, v), rw h)
      returns ((some header, v), h) = rw h (payload (decode_length header) v)

  payload_read :
      {n : ℕ} (m : ℕ) (u : World Socket)
      → m ≡ n
      → 1 ≤ n
      → n ≤ max_message_size
      → recv_payload c e m u ≡ recv_all c e n u
  payload_read {n} m u h lo hi = rw (h, fits n lo hi)
    where
      fits : (n : ℕ) → 1 ≤ n → n ≤ max_message_size → (n == 0 || ltb max_message_size n) ≡ false
      fits n lo hi = ground arith

  after_header-some :
      (m : Option (Option Bytes × World Socket)) (payload : Bytes) (v : World Socket)
      → after_header c e m ≡ some (some payload, v)
      → (header : Bytes) × (u : World Socket) × (m ≡ some (some header, u))
        × (recv_payload c e (decode_length header) u ≡ some (some payload, v))
  after_header-some none payload v h = absurd (cc)
  after_header-some (some (none, u)) payload v h = absurd (cc)
  after_header-some (some (some header, u)) payload v h = (header, u, refl, h)

  recv_payload-some :
      (n : ℕ) (u : World Socket) (payload : Bytes) (v : World Socket)
      → recv_payload c e n u ≡ some (some payload, v)
      → ((1 ≤ n) × (n ≤ max_message_size)) × (recv_all c e n u ≡ some (some payload, v))
  recv_payload-some n u payload v h = (ground arith, ground arith)

  module _ (d : Streams c) where
    after_recv_sound :
        (loop : ℕ → Bytes → World Socket → Option (Option Bytes × World Socket)) (n m : ℕ)
        (got : Bytes) (w : World Socket) (r : RecvResult × Socket) (q : Bytes) (v : World Socket)
        → recv w.socket m ≡ r
        → m ≤ suc n
        → ((k : ℕ) (more : Bytes) (u : World Socket)
            → loop k more u ≡ some (some q, v)
            → (ds : Bytes) × (q ≡ more ++ ds)
              × (length ds ≡ k)
              × (d.incoming u.socket ≡ ds ++ d.incoming v.socket))
        → after_recv c e loop (suc n) got w r ≡ some (some q, v)
        → (ds : Bytes) × (q ≡ got ++ ds)
          × (length ds ≡ suc n)
          × (d.incoming w.socket ≡ ds ++ d.incoming v.socket)
    unfolding after_recv
    after_recv_sound loop n m got w (recv_error, s) q v r k ih h = absurd (cc)
    after_recv_sound loop n m got w (received [], s) q v r k ih h = absurd (cc)
    after_recv_sound loop n m got w (received (b ∷ bs), s) q v r k ih h =
        let (short, split) = d.recv_incoming w.socket m (b ∷ bs) s r in
        let (ds, e1, l, i) = ih _ _ _ h in
        (
          (b ∷ bs) ++ ds,
          e1 ∙ append_assoc got (b ∷ bs) ds,
          omega (arith, length-append bs ds),
          split ∙ ap (λ t. (b ∷ bs) ++ t) i ∙ sym (append_assoc (b ∷ bs) ds (d.incoming v.socket)),
        )

    recv_loop_sound :
        (fuel n : ℕ) (got q : Bytes) (w v : World Socket)
        → recv_loop c e fuel n got w ≡ some (some q, v)
        → (ds : Bytes) × (q ≡ got ++ ds)
          × (length ds ≡ n)
          × (d.incoming w.socket ≡ ds ++ d.incoming v.socket)
    unfolding recv_loop
    recv_loop_sound fuel zero got q w v h = (
      [],
      ground (arith, recv_done c e fuel got w, append-nil got),
      refl,
      ground (arith, recv_done c e fuel got w),
    )
    recv_loop_sound zero (suc n) got q w v h = absurd (cc)
    recv_loop_sound (suc fuel) (suc n) got q w v h =
        after_recv_sound (recv_loop c e fuel) n (min (suc n) int_max) got w _ q v refl (omega arith)
          (λ k more u. recv_loop_sound fuel k more q u v) h

    -- A payload that `recv_frame` delivers has between 1 and 65536 bytes; it is the next part of
    -- the stream, behind the four bytes that state its length, and exactly these are taken.
    pub recv_frame_sound :
        (payload : Bytes) (w v : World Socket)
        → recv_frame c e w ≡ some (some payload, v)
        → (header : Bytes) × (length header ≡ 4)
          × (decode_length header ≡ length payload)
          × IsPayload payload
          × (d.incoming w.socket ≡ header ++ (payload ++ d.incoming v.socket))
    unfolding recv_frame recv_all
    recv_frame_sound payload w v h =
        let (header, u, head, body) = after_header-some (recv_all c e 4 w) payload v h in
        let (ds, e1, l, i) = recv_loop_sound 4 4 [] header w u head in
        let (fits, loop) = recv_payload-some (decode_length header) u payload v body in
        let (ps, e2, m, j) =
          recv_loop_sound (decode_length header) (decode_length header) [] payload u v loop in
        (
          header,
          omega (arith, ap length e1),
          omega (arith, ap length e2),
          (omega (arith, ap length e2), omega (arith, ap length e2)),
          i ∙ ap (λ t. ds ++ t) j ∙ cc (e1, e2),
        )

  module _ (d : Streams c) (f : Flows c d) where
    -- The frame of a valid payload that stands first in the stream is received as that payload,
    -- whatever pieces the socket returns, and the bytes behind it stay in the stream.
    pub recv_frame_delivers :
        (payload rest : Bytes) (w : World Socket)
        → IsPayload payload
        → d.incoming w.socket ≡ frame payload ++ rest
        → (v : World Socket) × (recv_frame c e w ≡ some (some payload, v))
          × (d.incoming v.socket ≡ rest)
    unfolding recv_frame recv_all
    recv_frame_delivers payload rest w p i =
        let (u, header, i') =
          recv_loop-takes c e d f 4 4 [] (encode_length (length payload)) (payload ++ rest) w
            (omega arith) (length-encode_length (length payload))
            (i ∙ append_assoc (encode_length (length payload)) payload rest) in
        let (v, body, i'') =
          recv_loop-takes c e d f (length payload) (length payload) [] payload rest u (omega arith)
            refl i' in
        (
          v,
          ap (after_header c e) header
              ∙ payload_read _ u (decode-encode_length (length payload) (omega arith)) p.0 p.1
              ∙ body,
          i'',
        )
