-- ===== src/Connection/Stopped/Sections.antt =====
-- The sections under the mutex after `request_stop` (client-cpp/src/connection.cpp).
use cross_language_lan_chatr.Prelude.{
  ℕ, ◌≡◌, refl, Bool, true, false, not, ◌&&◌, ◌||◌, Option, none, some, inl, inr, Bool-cases, codes,
  same,
}
use cross_language_lan_chatr.Message.{header}
use cross_language_lan_chatr.Connection.{
  Error, Progress, idle, at_stage, awaiting, State, is_ready, has_session, shut, close, fail, begin,
  finish, answered, start_receive, begin_idle,
}

-- What holds of a connection that has been stopped with so many sessions, and with these results of the
-- last `connect_and_login` and `send`: it has begun no session, completed no login and sent no message.
pub record Halted {S : Type 0} (sessions : ℕ) (connected sent : Option Bool) (s : State S)
    : Type 0 where
  pub stopped : s.stop_requested ≡ true
  pub next : s.next ≡ sessions
  pub none_connected : s.connected ≡ some true → connected ≡ some true
  pub none_sent : s.sent ≡ some true → sent ≡ some true

module _ {S : Type 0} (n : ℕ) (connected sent : Option Bool) where
  pub is_ready-Halted : (s : State S) → Halted n connected sent s → is_ready s ≡ false
  unfolding is_ready
  is_ready-Halted s h = let stopped = h.stopped in rw stopped (never s.ready)
    where
      never : (b : Bool) → b && false && has_session s.session ≡ false
      never true = refl
      never false = refl

  module _ (shut_down : S → S) where
    pub shut-Halted :
        (o : Option ℕ) (s : State S)
        → Halted n connected sent s
        → Halted n connected sent (shut shut_down o s)
    shut-Halted none s h = h
    shut-Halted (some i) s h = record {
      stopped = h.stopped;
      next = h.next;
      none_connected = h.none_connected;
      none_sent = h.none_sent;
    }

    pub close-Halted :
        (s : State S) → Halted n connected sent s → Halted n connected sent (close shut_down s)
    unfolding close
    close-Halted s h = shut-Halted s.session _ record {
      stopped = h.stopped;
      next = h.next;
      none_connected = h.none_connected;
      none_sent = h.none_sent;
    }

    pub fail-Halted :
        (e : Error) (s : State S)
        → Halted n connected sent s
        → Halted n connected sent (fail shut_down e s)
    unfolding fail
    fail-Halted e s h = close-Halted _ record {
      stopped = h.stopped;
      next = h.next;
      none_connected = λ e. absurd (cc e);
      none_sent = h.none_sent;
    }

    pub finish-Halted :
        (i : ℕ) (s : State S) → Halted n connected sent s → Halted n connected sent (finish i s)
    unfolding finish
    finish-Halted i s h =
        let stopped = h.stopped in
        rw stopped record {
          stopped = refl;
          next = h.next;
          none_connected = λ e. absurd (cc e);
          none_sent = h.none_sent;
        }

    pub answered-Halted :
        (i : ℕ) (s : State S)
        → Halted n connected sent s
        → Halted n connected sent (answered shut_down i s)
    unfolding answered
    answered-Halted i s h =
        elim (Bool-cases (same (header s.login_response).type (codes "login_pending"))) [
          | inl pending ↦ rw pending h
          | inr final ↦ elim (Bool-cases (same (header s.login_response).type (codes "login_ok"))) [
            | inl ok ↦ rw (final, ok) (finish-Halted i s h)
            | inr wrong ↦
                rw (final, wrong)
                  (fail-Halted _ _ record {
                    stopped = h.stopped;
                    next = h.next;
                    none_connected = h.none_connected;
                    none_sent = h.none_sent;
                  })
          ]
        ]

  pub begin_idle-Halted :
      (p : Progress) (s : State S)
      → Halted n connected sent s
      → Halted n connected sent (begin_idle p s)
  unfolding begin
  begin_idle-Halted idle s h =
      let stopped = h.stopped in
      rw stopped record {
        stopped = refl;
        next = h.next;
        none_connected = λ e. absurd (cc e);
        none_sent = h.none_sent;
      }
  begin_idle-Halted (at_stage i rest) s h = h
  begin_idle-Halted (awaiting i) s h = h

  pub start_receive-Halted :
      (s : State S) → Halted n connected sent s → Halted n connected sent (start_receive s)
  unfolding start_receive
  start_receive-Halted s h = elim (Bool-cases (not s.ready || s.stop_requested)) [
    | inl unready ↦ rw unready record {
      stopped = h.stopped;
      next = h.next;
      none_connected = h.none_connected;
      none_sent = h.none_sent;
    }
    | inr ready ↦ rw ready record {
      stopped = h.stopped;
      next = h.next;
      none_connected = h.none_connected;
      none_sent = h.none_sent;
    }
  ]
