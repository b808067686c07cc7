-- ===== src/Connection/Stopped.antt =====
-- After `request_stop` (client-cpp/src/connection.cpp).
pub mod Sections
use cross_language_lan_chatr.Prelude.{
  ℕ, ◌≡◌, refl, Bool, true, false, not, ◌&&◌, ◌||◌, Option, none, some, List, [], ◌∷◌, inl, inr,
  Bool-cases, codes, same,
}
use cross_language_lan_chatr.Protocol.{Channel, Errors, World}
use cross_language_lan_chatr.Message.{Library, Message, Checked, fine, refused, header}
use cross_language_lan_chatr.Message.Receive.{receive_message}
use cross_language_lan_chatr.Connection.{
  Config, Error, Progress, idle, at_stage, awaiting, State, Action, connect_and_login, receive,
  read, request_disconnect, request_stop, close_current, advance, send, passes, stage_error,
  is_ready, has_session, shut, close, disconnect, stop, fail, begin, finish, answered,
  start_receive, begin_idle,
}
use cross_language_lan_chatr.Connection.Threads.{
  login_sent, login_received, continue, message_read, read_session, send_ready, step, run,
}
use cross_language_lan_chatr.Connection.Stopped.Sections.{
  Halted, is_ready-Halted, shut-Halted, close-Halted, fail-Halted, finish-Halted, answered-Halted,
  begin_idle-Halted, start_receive-Halted,
}

module _ (library : Library) (c : Channel) (e : Errors c.Socket) (shut_down : c.Socket → c.Socket)
    (config : Config) (n : ℕ) (connected sent : Option Bool) where
  abbrev Kept : State c.Socket → Type 0
  Kept s = Halted n connected sent s

  login_sent-Halted :
      (i : ℕ) (s : State c.Socket) (o : Option (Option (Bool × World c.Socket)))
      → Kept s
      → Kept (login_sent library c e shut_down config i s o)
  login_sent-Halted i s (some (some (true, w))) h = record {
    stopped = h.stopped;
    next = h.next;
    none_connected = h.none_connected;
    none_sent = h.none_sent;
  }
  login_sent-Halted i s (some (some (false, w))) h =
      fail-Halted n connected sent shut_down _ _ record {
        stopped = h.stopped;
        next = h.next;
        none_connected = h.none_connected;
        none_sent = h.none_sent;
      }
  login_sent-Halted i s (some none) h = h
  login_sent-Halted i s none h = h

  login_received-Halted :
      (i : ℕ) (s : State c.Socket) (o : Option (Checked Message × World c.Socket))
      → Kept s
      → Kept (login_received library c e shut_down config i s o)
  login_received-Halted i s (some (fine m, w)) h =
      answered-Halted n connected sent shut_down i _ record {
        stopped = h.stopped;
        next = h.next;
        none_connected = h.none_connected;
        none_sent = h.none_sent;
      }
  login_received-Halted i s (some (refused x, w)) h =
      fail-Halted n connected sent shut_down _ _ record {
        stopped = h.stopped;
        next = h.next;
        none_connected = h.none_connected;
        none_sent = h.none_sent;
      }
  login_received-Halted i s none h = h

  continue-Halted :
      (p : Progress) (ok : Bool) (s : State c.Socket)
      → Kept s
      → Kept (continue library c e shut_down config p ok s)
  unfolding continue
  continue-Halted idle ok s h = h
  continue-Halted (at_stage i []) ok s h = login_sent-Halted i s _ h
  continue-Halted (at_stage i (stage ∷ rest)) ok s h = elim (Bool-cases (passes config stage ok)) [
    | inl done ↦ rw done record {
      stopped = h.stopped;
      next = h.next;
      none_connected = h.none_connected;
      none_sent = h.none_sent;
    }
    | inr failed ↦ rw failed (fail-Halted n connected sent shut_down (stage_error config stage) s h)
  ]
  continue-Halted (awaiting i) ok s h = login_received-Halted i s _ h

  read_session-Halted :
      (o : Option (Option ℕ)) (s : State c.Socket)
      → Kept s
      → Kept (read_session library c e shut_down config o s)
  unfolding read_session
  read_session-Halted none s h = h
  read_session-Halted (some none) s h = record {
    stopped = h.stopped;
    next = h.next;
    none_connected = h.none_connected;
    none_sent = h.none_sent;
  }
  read_session-Halted (some (some i)) s h = after (receive_message library c e (s.links i))
    where
      after :
          (o : Option (Checked Message × World c.Socket))
          → Halted n connected sent (message_read library c e shut_down config i s o)
      after (some (fine m, w)) = record {
        stopped = h.stopped;
        next = h.next;
        none_connected = h.none_connected;
        none_sent = h.none_sent;
      }
      after (some (refused x, w)) = record {
        stopped = h.stopped;
        next = h.next;
        none_connected = h.none_connected;
        none_sent = h.none_sent;
      }
      after none = h

  send_ready-Halted :
      (m : Message) (s : State c.Socket)
      → Kept s
      → Kept (send_ready library c e shut_down config m s)
  unfolding send_ready
  send_ready-Halted m s h =
      let stopped = or_true s.ready h.stopped in
      rw stopped record {
        stopped = h.stopped;
        next = h.next;
        none_connected = h.none_connected;
        none_sent = λ e. absurd (cc e);
      }
    where
      or_true : (b : Bool) → s.stop_requested ≡ true → not b || s.stop_requested ≡ true
      or_true true e = e
      or_true false e = refl

  step-Halted :
      (a : Action) (s : State c.Socket) → Kept s → Kept (step library c e shut_down config a s)
  unfolding step disconnect stop
  step-Halted connect_and_login s h = begin_idle-Halted n connected sent s.login s h
  step-Halted (advance ok) s h = continue-Halted s.login ok s h
  step-Halted receive s h = start_receive-Halted n connected sent s h
  step-Halted read s h = read_session-Halted s.reader s h
  step-Halted (send m) s h = send_ready-Halted m s h
  step-Halted request_disconnect s h = shut-Halted n connected sent shut_down s.session s h
  step-Halted request_stop s h = shut-Halted n connected sent shut_down s.session _ record {
    stopped = refl;
    next = h.next;
    none_connected = h.none_connected;
    none_sent = h.none_sent;
  }
  step-Halted close_current s h = close-Halted n connected sent shut_down s h

  run-Halted :
      (actions : List Action) (s : State c.Socket)
      → Kept s
      → Kept (run library c e shut_down config actions s)
  unfolding run
  run-Halted [] s h = h
  run-Halted (a ∷ actions) s h =
      run-Halted actions (step library c e shut_down config a s) (step-Halted a s h)

module _ (library : Library) (c : Channel) (e : Errors c.Socket) (shut_down : c.Socket → c.Socket)
    (config : Config) where
  -- After `request_stop`, however the threads go on, the connection is not ready, no session has been
  -- begun, and a `connect_and_login` or a `send` that has returned true since did so before the stop.
  pub stop-Halted :
      (s : State c.Socket) (actions : List Action)
      → Halted s.next s.connected s.sent
          (run library c e shut_down config (request_stop ∷ actions) s)
        × (is_ready (run library c e shut_down config (request_stop ∷ actions) s) ≡ false)
  unfolding run step stop
  stop-Halted s actions =
      let halted = run-Halted library c e shut_down config s.next s.connected s.sent actions _ (
        shut-Halted s.next s.connected s.sent shut_down s.session
          (record s { stop_requested = true })
          record { stopped = refl; next = refl; none_connected = λ e. e; none_sent = λ e. e }) in
      (halted, is_ready-Halted s.next s.connected s.sent _ halted)
