-- ===== src/Protocol/RoundTrip.antt =====
-- Frames from one end of a connection to the other (client-cpp/src/protocol.cpp).
use mathlib.Core.List.{append-nil}
use cross_language_lan_chatr.Prelude.{◌≡◌, sym, ap, ◌∙◌, true, some, [], ◌++◌, Bytes}
use cross_language_lan_chatr.Protocol.Frame.{frame}
use cross_language_lan_chatr.Protocol.Send.{Delivers, send_frame-wire}
use cross_language_lan_chatr.Protocol.Receive.{recv_frame_delivers}
use cross_language_lan_chatr.Protocol.Receive.Loop.{Streams, Flows}
use cross_language_lan_chatr.Protocol.{Channel, Errors, World, send_frame, recv_frame}

-- One connection: what the sending end `a` has written and the receiving end `b` has not read.
module _ (a b : Channel) (ea : Errors a.Socket) (eb : Errors b.Socket) (da : Delivers a)
    (db : Streams b) (flows : Flows b db) where
  -- Two frames that the sender has sent in a row, with nothing written before that is still unread,
  -- reach the receiver as the same two payloads in the same order, with nothing left over, however
  -- either socket splits the bytes.
  pub send_two-recv_two :
      (first second : Bytes) (w v u : World a.Socket) (r : World b.Socket)
      → da.wire w.socket ≡ []
      → send_frame a ea first w ≡ some (true, v)
      → send_frame a ea second v ≡ some (true, u)
      → db.incoming r.socket ≡ da.wire u.socket
      → (s t : World b.Socket) × (recv_frame b eb r ≡ some (some first, s))
        × (recv_frame b eb s ≡ some (some second, t))
        × (db.incoming t.socket ≡ [])
  send_two-recv_two first second w v u r empty sent_first sent_second linked =
      let (fits1, wire1) = send_frame-wire a ea da first w v sent_first in
      let (fits2, wire2) = send_frame-wire a ea da second v u sent_second in
      let stream =
        linked ∙ wire2 ∙ ap (λ t. t ++ frame second) (wire1 ∙ ap (λ t. t ++ frame first) empty) in
      let (s, got1, left1) =
        recv_frame_delivers b eb db flows first (frame second) r fits1 stream in
      let (t, got2, left2) =
        recv_frame_delivers b eb db flows second [] s fits2
          (left1 ∙ sym (append-nil (frame second))) in
      (s, t, got1, got2, left2)
