-- ===== src/Connection/Threads.antt =====
-- The steps of the threads that share a connection, over its streams (`ConnectionState` of
-- client-cpp/src/connection.cpp).
use cross_language_lan_chatr.Prelude.{
  ℕ, Bool, true, false, not, ◌||◌, Option, none, some, List, [], ◌∷◌, if◌then◌else◌,
}
use cross_language_lan_chatr.Protocol.{Channel, Errors, World}
use cross_language_lan_chatr.Message.{Library, empty_message, Message, Checked, fine, refused}
use cross_language_lan_chatr.Message.Receive.{send_message, receive_message}
use cross_language_lan_chatr.Connection.{
  State, Action, Config, Progress, Stage, advance, answered, at_stage, awaiting, begin_idle, close,
  close_current, connect_and_login, disconnect, exchange_failed, fail, frame_error, gives_ssl, idle,
  login_message, message_error, not_ready, passes, previous_message_error, read, receive,
  request_disconnect, request_stop, send, set_link, stage_error, start_receive, stop, update,
}

module _ (library : Library) (c : Channel) (e : Errors c.Socket) (shut_down : c.Socket → c.Socket)
    (config : Config) where
  -- The outer `none` of `send_message` and of `receive_message` does not occur, the inner one is an
  -- exception, which the login message does not raise.
  abbrev pub login_sent :
      ℕ → State c.Socket → Option (Option (Bool × World c.Socket)) → State c.Socket
  login_sent i s (some (some (true, w))) = record (set_link i w s) { login = awaiting i }
  login_sent i s (some (some (false, w))) = fail shut_down exchange_failed (set_link i w s)
  login_sent i s _ = s

  abbrev pub login_received :
      ℕ → State c.Socket → Option (Checked Message × World c.Socket) → State c.Socket
  login_received i s (some (fine m, w)) =
      answered shut_down i (record (set_link i w s) { login_response = m })
  login_received i s (some (refused x, w)) =
      fail shut_down exchange_failed (record (set_link i w s) { login_response = empty_message })
  login_received i s none = s

  abbrev pub pass : ℕ → Stage → List Stage → State c.Socket → State c.Socket
  pass i stage rest s = record s {
    login = at_stage i rest;
    has_ssl = update s.has_ssl i (s.has_ssl i || gives_ssl stage);
  }

  unfoldable pub continue : Progress → Bool → State c.Socket → State c.Socket
  continue idle ok s = s
  continue (at_stage i []) ok s =
      login_sent i s (send_message library c e (login_message config) (s.links i))
  continue (at_stage i (stage ∷ rest)) ok s =
      if passes config stage ok
      then pass i stage rest s
      else fail shut_down (stage_error config stage) s
  continue (awaiting i) ok s = login_received i s (receive_message library c e (s.links i))

  abbrev pub message_read :
      ℕ → State c.Socket → Option (Checked Message × World c.Socket) → State c.Socket
  message_read i s (some (fine m, w)) = record (set_link i w s) {
    reader = none;
    received = some (some m);
  }
  message_read i s (some (refused x, w)) = record (set_link i w s) {
    reader = none;
    received = some none;
    last_error = some (message_error x);
  }
  message_read i s none = s

  unfoldable pub read_session : Option (Option ℕ) → State c.Socket → State c.Socket
  read_session none s = s
  read_session (some none) s = record s {
    reader = none;
    received = some none;
    last_error = some previous_message_error;
  }
  read_session (some (some i)) s = message_read i s (receive_message library c e (s.links i))

  abbrev pub message_sent :
      ℕ → State c.Socket → Option (Option (Bool × World c.Socket)) → State c.Socket
  message_sent i s (some (some (true, w))) = record (set_link i w s) { sent = some true }
  message_sent i s (some (some (false, w))) = record (set_link i w s) {
    sent = some false;
    last_error = some (frame_error w.last_error);
  }
  message_sent i s _ = record s { sent = none }

  abbrev pub send_over : Option ℕ → Message → State c.Socket → State c.Socket
  send_over none m s = record s { sent = some false; last_error = some not_ready }
  send_over (some i) m s = message_sent i s (send_message library c e m (s.links i))

  unfoldable pub send_ready : Message → State c.Socket → State c.Socket
  send_ready m s =
      if not s.ready || s.stop_requested
      then record s { sent = some false; last_error = some not_ready }
      else send_over s.session m s

  unfoldable pub step : Action → State c.Socket → State c.Socket
  step connect_and_login s = begin_idle s.login s
  step (advance ok) s = continue s.login ok s
  step receive s = start_receive s
  step read s = read_session s.reader s
  step (send m) s = send_ready m s
  step request_disconnect s = disconnect shut_down s
  step request_stop s = stop shut_down s
  step close_current s = close shut_down s

  -- The steps that the threads take, in any order.
  unfoldable pub run : List Action → State c.Socket → State c.Socket
  run [] s = s
  run (a ∷ actions) s = run actions (step a s)
