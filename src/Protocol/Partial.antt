-- ===== src/Protocol/Partial.antt =====
-- What `send_all` and `send_frame` of client-cpp/src/protocol.cpp leave on the wire when they fail.
use cross_language_lan_chatr.Prelude.{◌≡◌, Bool, ◌++◌, is_empty, Bytes}
use cross_language_lan_chatr.Protocol.Send.{Delivers}
use cross_language_lan_chatr.Protocol.{Channel, World, Errors, send_error}

-- A call that fails has taken none of the bytes.
pub record Refuses (c : Channel) (d : Delivers c) : Type 0 where
  pub refused_wire :
      (s : c.Socket) (bytes : Bytes) (s' : c.Socket)
      → c.send s bytes ≡ (send_error, s')
      → d.wire s' ≡ d.wire s

module _ (c : Channel) (e : Errors c.Socket) (d : Delivers c) (f : Refuses c d) where
  open c use {Socket, send}

  -- The front of the bytes has been added to the wire, all of them exactly if the call says so.
  pub record Partly (bytes : Bytes) (ok : Bool) (w v : World Socket) : Type 0 where
    pub front : Bytes
    pub back : Bytes
    pub split : front ++ back ≡ bytes
    pub written : d.wire v.socket ≡ d.wire w.socket ++ front
    pub all_sent : is_empty back ≡ ok
