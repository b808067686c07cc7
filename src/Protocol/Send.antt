-- ===== src/Protocol/Send.antt =====
-- `send_all` and `send_frame` of client-cpp/src/protocol.cpp: what reaches the wire.
use mathlib.Core.List.{append_assoc, append-nil}
use cross_language_lan_chatr.Prelude.{
  ℕ, zero, suc, ◌≤◌, ◌≡◌, refl, ap, ◌∙◌, min, Bool, true, false, ◌||◌, Option, none, some, [], ◌∷◌,
  ◌++◌, arith, ltb, length, is_empty, take, drop, Bytes, length-take, length-drop, take-take,
  take-append-drop, Bool-cases, inl, inr,
}
use cross_language_lan_chatr.Protocol.Frame.{frame, IsPayload}
use cross_language_lan_chatr.Protocol.{
  Channel, World, Errors, SendResult, send_error, sent, send_loop, after_send, send_all, then_send,
  send_frame, encode_length, max_message_size, int_max, note_outgoing,
}

-- What the code relies on: a call that reports `n` has taken the first `n` of the bytes it was
-- given, in order, and no others.
pub record Delivers (c : Channel) : Type 0 where
  pub wire : c.Socket → Bytes
  pub send_wire :
      (s : c.Socket) (bytes : Bytes) (n : ℕ) (s' : c.Socket)
      → c.send s bytes ≡ (sent n, s')
      → (n ≤ length bytes) × (wire s' ≡ wire s ++ take n bytes)

module _ (c : Channel) (e : Errors c.Socket) where
  open c use {Socket, send}

  -- The loop ends: fuel for each byte is enough, since each round that goes on has sent one.
  after_send_returns :
      (loop : Bytes → World Socket → Option (Bool × World Socket)) (b : ℕ) (bs : Bytes)
      (w : World Socket) (r : SendResult × Socket)
      → ((rest : Bytes) (v : World Socket)
          → length rest ≤ length bs
          → (q : Bool × World Socket) × (loop rest v ≡ some q))
      → (q : Bool × World Socket) × (after_send c e loop (b ∷ bs) w r ≡ some q)
  unfolding after_send
  after_send_returns loop b bs w (send_error, s) ih = (_, refl)
  after_send_returns loop b bs w (sent zero, s) ih = (_, refl)
  after_send_returns loop b bs w (sent (suc n), s) ih =
      ih (drop n bs) (record w { socket = s }) (omega (arith, length-drop n bs))

  pub send_nil : (fuel : ℕ) (w : World Socket) → send_loop c e fuel [] w ≡ some (true, w)
  unfolding send_loop
  send_nil zero w = refl
  send_nil (suc fuel) w = refl

  send_loop_returns :
      (fuel : ℕ) (bytes : Bytes) (w : World Socket)
      → length bytes ≤ fuel
      → (q : Bool × World Socket) × (send_loop c e fuel bytes w ≡ some q)
  unfolding send_loop
  send_loop_returns fuel [] w h = ((true, w), send_nil fuel w)
  send_loop_returns zero (b ∷ bs) w h = absurd (omega arith)
  send_loop_returns (suc fuel) (b ∷ bs) w h =
      after_send_returns (send_loop c e fuel) b bs w _
        λ rest v k. send_loop_returns fuel rest v (omega arith)

  module _ (d : Delivers c) where
    after_send-wire :
        (loop : Bytes → World Socket → Option (Bool × World Socket)) (bytes : Bytes) (m : ℕ)
        (w v : World Socket) (r : SendResult × Socket)
        → send w.socket (take m bytes) ≡ r
        → ((rest : Bytes) (u : World Socket)
            → loop rest u ≡ some (true, v)
            → d.wire v.socket ≡ d.wire u.socket ++ rest)
        → after_send c e loop bytes w r ≡ some (true, v)
        → d.wire v.socket ≡ d.wire w.socket ++ bytes
    unfolding after_send
    after_send-wire loop bytes m w v (send_error, s) q ih h = absurd (cc)
    after_send-wire loop bytes m w v (sent zero, s) q ih h = absurd (cc)
    after_send-wire loop bytes m w v (sent (suc n), s) q ih h =
        let (short, written) = d.send_wire w.socket (take m bytes) (suc n) s q in
        ih (drop (suc n) bytes) (record w { socket = s }) h
        ∙ ap (λ t. t ++ drop (suc n) bytes)
            (written
              ∙ ap (λ t. d.wire w.socket ++ t)
                  (take-take m (suc n) bytes (omega (arith, length-take m bytes))))
        ∙ append_assoc (d.wire w.socket) (take (suc n) bytes) (drop (suc n) bytes)
        ∙ ap (λ t. d.wire w.socket ++ t) (take-append-drop (suc n) bytes)

    send_loop-wire :
        (fuel : ℕ) (bytes : Bytes) (w v : World Socket)
        → send_loop c e fuel bytes w ≡ some (true, v)
        → d.wire v.socket ≡ d.wire w.socket ++ bytes
    unfolding send_loop
    send_loop-wire fuel [] w v h = ground (arith, send_nil fuel w, append-nil (d.wire w.socket))
    send_loop-wire zero (b ∷ bs) w v h = cc
    send_loop-wire (suc fuel) (b ∷ bs) w v h =
        after_send-wire (send_loop c e fuel) (b ∷ bs) (min (length (b ∷ bs)) int_max) w v _ refl
          (λ rest u. send_loop-wire fuel rest u v) h

  valid_size :
      (payload : Bytes)
      → IsPayload payload
      → (is_empty payload || ltb max_message_size (length payload)) ≡ false
  valid_size [] p = absurd (omega arith)
  valid_size (x ∷ xs) p = ground arith

  pub invalid_size :
      (payload : Bytes)
      → (is_empty payload || ltb max_message_size (length payload)) ≡ false
      → IsPayload payload
  invalid_size [] h = cc
  invalid_size (x ∷ xs) h = ground arith

  -- `send_frame` returns, whatever the socket does.
  pub send_frame_returns :
      (payload : Bytes) (w : World Socket)
      → (q : Bool × World Socket) × (send_frame c e payload w ≡ some q)
  unfolding send_frame send_all
  send_frame_returns payload w =
      elim (Bool-cases (is_empty payload || ltb max_message_size (length payload))) [
        | inl h ↦ ((false, note_outgoing c e e.outgoing w), rw h)
        | inr h ↦ rw h (
            then_send_returns (
              send_loop_returns (length (encode_length (length payload)))
                (encode_length (length payload)) w (omega arith)))
      ]
    where
      then_send_returns :
          {m : Option (Bool × World Socket)}
          → (q : Bool × World Socket) × (m ≡ some q)
          → (q : Bool × World Socket) × (then_send c e (send_loop c e (length payload) payload) m
              ≡ some q)
      then_send_returns ((false, v), h) = ((false, v), rw h)
      then_send_returns ((true, v), h) =
          rw h (send_loop_returns (length payload) payload v (omega arith))

  -- Both parts of a frame that is sent are sent.
  then_send-true :
      (next : World Socket → Option (Bool × World Socket)) (m : Option (Bool × World Socket))
      (v : World Socket)
      → then_send c e next m ≡ some (true, v)
      → (u : World Socket) × (m ≡ some (true, u)) × (next u ≡ some (true, v))
  then_send-true next none v h = cc
  then_send-true next (some (false, u)) v h = absurd (cc)
  then_send-true next (some (true, u)) v h = (u, refl, h)

  sent_size :
      (payload : Bytes) (w v : World Socket)
      → send_frame c e payload w ≡ some (true, v)
      → (is_empty payload || ltb max_message_size (length payload)) ≡ false
  unfolding send_frame
  sent_size payload w v h =
      elim (Bool-cases (is_empty payload || ltb max_message_size (length payload))) [
        | inl big ↦ absurd (cc (rw (big, send_frame) at h))
        | inr fits ↦ fits
      ]

  -- If `send_frame` returns true, the payload has between 1 and 65536 bytes and exactly its frame
  -- has been added to the wire, however the socket splits the writes.
  pub send_frame-wire :
      (d : Delivers c) (payload : Bytes) (w v : World Socket)
      → send_frame c e payload w ≡ some (true, v)
      → IsPayload payload × (d.wire v.socket ≡ d.wire w.socket ++ frame payload)
  unfolding send_frame send_all
  send_frame-wire d payload w v h =
      let fits = sent_size payload w v h in
      let (u, header, body) =
        then_send-true (send_all c e payload) (send_all c e (encode_length (length payload)) w) v
          (rw (fits, send_frame) at h) in
      (
        invalid_size payload fits,
        send_loop-wire d (length payload) payload u v body
            ∙ ap (λ t. t ++ payload)
                (send_loop-wire d (length (encode_length (length payload)))
                  (encode_length (length payload)) w u header)
            ∙ append_assoc (d.wire w.socket) (encode_length (length payload)) payload,
      )
