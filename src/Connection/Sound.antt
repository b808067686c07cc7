-- ===== src/Connection/Sound.antt =====
-- No thread uses a session without an SSL handle (`ConnectionState` of client-cpp/src/connection.cpp).
pub mod Sections
use cross_language_lan_chatr.Prelude.{
  ℕ, suc, ◌<◌, ◌≡◌, refl, sym, ap, ◌∙◌, subst, Bool, true, false, not, ◌||◌, Option, none, some,
  List, [], ◌∷◌, arith, ◌==◌, ==_refl, inl, inr, Bool-cases, codes, same,
}
use cross_language_lan_chatr.Protocol.{Channel, Errors, World}
use cross_language_lan_chatr.Message.{Library, Message, Checked, fine, refused, header}
use cross_language_lan_chatr.Message.Receive.{send_message, receive_message}
use cross_language_lan_chatr.Connection.{
  Config, Error, Stage, stages, Progress, idle, at_stage, awaiting, State, Action,
  connect_and_login, receive, read, request_disconnect, request_stop, close_current, advance, send,
  update, passes, gives_ssl, is_session, shut, close, disconnect, stop, fail, stage_error, begin,
  finish, answered, start_receive, begin_idle, fresh,
}
use cross_language_lan_chatr.Connection.Threads.{
  login_sent, login_received, continue, message_read, read_session, message_sent, send_over,
  send_ready, step, run,
}
use cross_language_lan_chatr.Connection.Sound.Sections.{
  Usable, UsableReader, UsableSession, makes_ssl, Candidate, Sound, or-right, reader_kept,
  session_kept, shut-Sound, close-Sound, fail-Sound, finish-Sound, answered-Sound, begin-Sound,
}

module _ (library : Library) (c : Channel) (e : Errors c.Socket) (shut_down : c.Socket → c.Socket)
    (config : Config) where
  login_sent-Sound :
      (i : ℕ) (s : State c.Socket) (o : Option (Option (Bool × World c.Socket)))
      → Usable s.next s.has_ssl i
      → Sound s
      → Sound (login_sent library c e shut_down config i s o)
  login_sent-Sound i s (some (some (true, w))) u h = record {
    ready = h.ready;
    reader = h.reader;
    login = u;
  }
  login_sent-Sound i s (some (some (false, w))) u h =
      fail-Sound shut_down _ _ record { ready = h.ready; reader = h.reader; login = h.login }
  login_sent-Sound i s (some none) u h = h
  login_sent-Sound i s none u h = h

  login_received-Sound :
      (i : ℕ) (s : State c.Socket) (o : Option (Checked Message × World c.Socket))
      → Usable s.next s.has_ssl i
      → Sound s
      → Sound (login_received library c e shut_down config i s o)
  login_received-Sound i s (some (fine m, w)) u h =
      answered-Sound shut_down i _ u record { ready = h.ready; reader = h.reader; login = h.login }
  login_received-Sound i s (some (refused x, w)) u h =
      fail-Sound shut_down _ _ record { ready = h.ready; reader = h.reader; login = h.login }
  login_received-Sound i s none u h = h

  continue-Sound :
      (p : Progress) (ok : Bool) (s : State c.Socket)
      → Candidate s.next s.has_ssl p
      → Sound s
      → Sound (continue library c e shut_down config p ok s)
  unfolding continue
  continue-Sound idle ok s u h = h
  continue-Sound (at_stage i []) ok s (below, made) h =
      login_sent-Sound i s _ (below, or_false (s.has_ssl i) made) h
    where
      or_false : (b : Bool) → b || false ≡ true → b ≡ true
      or_false true e = refl
      or_false false e = e
  continue-Sound (at_stage i (stage ∷ rest)) ok s (below, made) h =
      elim (Bool-cases (passes config stage ok)) [
        | inl done ↦ rw done record {
          ready = λ e.
              session_kept s.next s.has_ssl s.next
                (update s.has_ssl i (s.has_ssl i || gives_ssl stage)) grown s.session (h.ready e);
          reader =
              reader_kept s.next s.has_ssl s.next
                (update s.has_ssl i (s.has_ssl i || gives_ssl stage)) grown s.reader h.reader;
          login = (
            below,
            let self = ==_refl i in
                rw self (regrouped (s.has_ssl i) (gives_ssl stage) (makes_ssl rest) made),
          );
        }
        | inr failed ↦ rw failed (fail-Sound shut_down (stage_error config stage) s h)
      ]
    where
      regrouped : (a b c : Bool) → a || (b || c) ≡ true → (a || b) || c ≡ true
      regrouped true b c e = refl
      regrouped false b c e = e

      either : (b c : Bool) → b ≡ true → b || c ≡ true
      either true c e = refl
      either false c e = absurd (cc e)

      grown :
          (j : ℕ)
          → Usable s.next s.has_ssl j
          → (j < s.next) × (update s.has_ssl i (s.has_ssl i || gives_ssl stage) j ≡ true)
      grown j (below, made) = elim (Bool-cases (j == i)) [
        | inl here ↦
            let at : j ≡ i = ground arith in
            (below, rw here (either (s.has_ssl i) (gives_ssl stage) (ap s.has_ssl (sym at) ∙ made)))
        | inr other ↦ (below, rw other made)
      ]
  continue-Sound (awaiting i) ok s u h = login_received-Sound i s _ u h

  start_receive-Sound : (s : State c.Socket) → Sound s → Sound (start_receive s)
  unfolding start_receive
  start_receive-Sound s h = elim (Bool-cases (not s.ready || s.stop_requested)) [
    | inl unready ↦ rw unready record { ready = h.ready; reader = tt; login = h.login }
    | inr ready ↦ rw ready record {
      ready = h.ready;
      reader = taken s.session (h.ready (is_true s.ready s.stop_requested ready));
      login = h.login;
    }
  ]
    where
      is_true : (b c : Bool) → not b || c ≡ false → b ≡ true
      is_true true c e = refl
      is_true false c e = absurd (cc e)

      taken :
          (o : Option ℕ) → UsableSession s.next s.has_ssl o → UsableReader s.next s.has_ssl (some o)
      taken none u = tt
      taken (some i) u = u

  read_session-Sound :
      (o : Option (Option ℕ)) (s : State c.Socket)
      → Sound s
      → Sound (read_session library c e shut_down config o s)
  unfolding read_session
  read_session-Sound none s h = h
  read_session-Sound (some none) s h = record { ready = h.ready; reader = tt; login = h.login }
  read_session-Sound (some (some i)) s h = after (receive_message library c e (s.links i))
    where
      after :
          (o : Option (Checked Message × World c.Socket))
          → Sound (message_read library c e shut_down config i s o)
      after (some (fine m, w)) = record { ready = h.ready; reader = tt; login = h.login }
      after (some (refused x, w)) = record { ready = h.ready; reader = tt; login = h.login }
      after none = h

  send_over-Sound :
      (o : Option ℕ) (m : Message) (s : State c.Socket)
      → Sound s
      → Sound (send_over library c e shut_down config o m s)
  send_over-Sound none m s h = record { ready = h.ready; reader = h.reader; login = h.login }
  send_over-Sound (some i) m s h = after (send_message library c e m (s.links i))
    where
      after :
          (o : Option (Option (Bool × World c.Socket)))
          → Sound (message_sent library c e shut_down config i s o)
      after (some (some (true, w))) = record { ready = h.ready; reader = h.reader; login = h.login }
      after (some (some (false, w))) = record {
        ready = h.ready;
        reader = h.reader;
        login = h.login;
      }
      after (some none) = record { ready = h.ready; reader = h.reader; login = h.login }
      after none = record { ready = h.ready; reader = h.reader; login = h.login }

  send_ready-Sound :
      (m : Message) (s : State c.Socket)
      → Sound s
      → Sound (send_ready library c e shut_down config m s)
  unfolding send_ready
  send_ready-Sound m s h = elim (Bool-cases (not s.ready || s.stop_requested)) [
    | inl unready ↦ rw unready record { ready = h.ready; reader = h.reader; login = h.login }
    | inr ready ↦ rw ready (send_over-Sound s.session m s h)
  ]

  begin_idle-Sound : (p : Progress) (s : State c.Socket) → Sound s → Sound (begin_idle p s)
  begin_idle-Sound idle s h = begin-Sound s h
  begin_idle-Sound (at_stage i rest) s h = h
  begin_idle-Sound (awaiting i) s h = h

  step-Sound :
      (a : Action) (s : State c.Socket) → Sound s → Sound (step library c e shut_down config a s)
  unfolding step disconnect stop
  step-Sound connect_and_login s h = begin_idle-Sound s.login s h
  step-Sound (advance ok) s h = continue-Sound s.login ok s h.login h
  step-Sound receive s h = start_receive-Sound s h
  step-Sound read s h = read_session-Sound s.reader s h
  step-Sound (send m) s h = send_ready-Sound m s h
  step-Sound request_disconnect s h = shut-Sound shut_down s.session s h
  step-Sound request_stop s h =
      shut-Sound shut_down s.session _
        record { ready = h.ready; reader = h.reader; login = h.login }
  step-Sound close_current s h = close-Sound shut_down s h

  pub run-Sound :
      (actions : List Action) (s : State c.Socket)
      → Sound s
      → Sound (run library c e shut_down config actions s)
  unfolding run
  run-Sound [] s h = h
  run-Sound (a ∷ actions) s h =
      run-Sound actions (step library c e shut_down config a s) (step-Sound a s h)

  -- However the threads of a new connection take their steps, the session of a connection that is ready,
  -- the one that is being read and the candidate that awaits the answer to a login exist and have an SSL
  -- handle.
  pub run-fresh-Sound :
      (links : ℕ → World c.Socket) (actions : List Action)
      → Sound (run library c e shut_down config actions (fresh links))
  run-fresh-Sound links actions =
      run-Sound actions _ record { ready = λ h. absurd (cc h); reader = tt; login = tt }
