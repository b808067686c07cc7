-- ===== src/Connection/Phases.antt =====
-- The phases of a connection (client-cpp/src/connection.cpp).
use cross_language_lan_chatr.Prelude.{
  ℕ, ◌≡◌, refl, sym, ap, subst, Bool, true, false, not, ◌||◌, Option, none, some, List, [], ◌∷◌,
  inl, inr, Bool-cases, codes, same,
}
use cross_language_lan_chatr.Protocol.{Channel, Errors, World}
use cross_language_lan_chatr.Message.{Library, Message, Checked, fine, refused, header}
use cross_language_lan_chatr.Message.Receive.{send_message, receive_message}
use cross_language_lan_chatr.Connection.{
  Config, Error, Stage, Progress, idle, at_stage, awaiting, State, Action, connect_and_login,
  receive, read, request_disconnect, request_stop, close_current, advance, send, passes,
  stage_error, is_session, shut, close, disconnect, stop, fail, begin, finish, answered,
  start_receive, begin_idle, fresh,
}
use cross_language_lan_chatr.Connection.Threads.{
  login_sent, login_received, continue, message_read, read_session, message_sent, send_over,
  send_ready, step,
}

-- `mixed` is a connection that is ready while an attempt to connect is in progress.
pub data Phase : Type 0 where
  offline connecting online halted mixed : Phase

-- What a connection promises: which step of a thread may take it from one phase to another.
pub data Move : Action → Phase → Phase → Type 0 where
  stay : (a : Action) (p : Phase) → Move a p p
  start : Move connect_and_login offline connecting
  restart : Move connect_and_login online connecting
  succeed : (ok : Bool) → Move (advance ok) connecting online
  give_up : (ok : Bool) → Move (advance ok) connecting offline
  drop : Move close_current online offline
  halt : (p : Phase) → Move request_stop p halted

-- The phase after each of the steps, every one of them a move from the phase before.
pub data Follows : Phase → List Action → List Phase → Type 0 where
  done : (p : Phase) → Follows p [] []
  and_then :
      {p q : Phase} {a : Action} {actions : List Action} {later : List Phase}
      → Move a p q
      → Follows q actions later
      → Follows p (a ∷ actions) (q ∷ later)

abbrev pub attempt : Progress → Phase
attempt idle = offline
attempt (at_stage i rest) = connecting
attempt (awaiting i) = connecting

abbrev pub when_ready : Progress → Phase
when_ready idle = online
when_ready (at_stage i rest) = mixed
when_ready (awaiting i) = mixed

-- From `stop_requested`, `ready` and the thread in `connect_and_login`.
abbrev pub phase_of : Bool → Bool → Progress → Phase
phase_of true ready login = halted
phase_of false true login = when_ready login
phase_of false false login = attempt login

abbrev pub phase : {S : Type 0} → State S → Phase
phase s = phase_of s.stop_requested s.ready s.login

abbrev pub sound : Phase → Bool
sound mixed = false
sound _ = true

Move-sound : {a : Action} {p q : Phase} → Move a p q → sound p ≡ true → sound q ≡ true
Move-sound (stay a p) h = h
Move-sound start h = refl
Move-sound restart h = refl
Move-sound (succeed ok) h = refl
Move-sound (give_up ok) h = refl
Move-sound drop h = refl
Move-sound (halt p) h = refl

close-Move :
    (b r : Bool) (p : Progress)
    → sound (phase_of b r p) ≡ true
    → Move close_current (phase_of b r p) (phase_of b false p)
close-Move true r p h = stay close_current halted
close-Move false false p h = stay close_current (attempt p)
close-Move false true idle h = drop
close-Move false true (at_stage i rest) h = absurd (cc h)
close-Move false true (awaiting i) h = absurd (cc h)

leave-Move :
    (ok b r : Bool) (p : Progress)
    → attempt p ≡ connecting
    → sound (phase_of b r p) ≡ true
    → Move (advance ok) (phase_of b r p) (phase_of b false idle)
leave-Move ok true r p at h = stay (advance ok) halted
leave-Move ok false r idle at h = absurd (cc at)
leave-Move ok false true (at_stage i rest) at h = absurd (cc h)
leave-Move ok false true (awaiting i) at h = absurd (cc h)
leave-Move ok false false (at_stage i rest) at h = give_up ok
leave-Move ok false false (awaiting i) at h = give_up ok

begin-Move : (r : Bool) → Move connect_and_login (phase_of false r idle) connecting
begin-Move true = restart
begin-Move false = start

arrive-Move :
    (ok b r : Bool) (i : ℕ)
    → sound (phase_of b r (awaiting i)) ≡ true
    → Move (advance ok) (phase_of b r (awaiting i)) (phase_of b true idle)
arrive-Move ok true r i h = stay (advance ok) halted
arrive-Move ok false true i h = absurd (cc h)
arrive-Move ok false false i h = succeed ok

pass-Move :
    (ok b r : Bool) (i : ℕ) (rest : List Stage) (p : Progress)
    → attempt p ≡ connecting
    → sound (phase_of b r (at_stage i rest)) ≡ true
    → Move (advance ok) (phase_of b r (at_stage i rest)) (phase_of b r p)
pass-Move ok true r i rest p at h = stay (advance ok) halted
pass-Move ok false true i rest p at h = absurd (cc h)
pass-Move ok false false i rest p at h =
    subst (Move (advance ok) connecting) (sym at) (stay (advance ok) connecting)

module _ {S : Type 0} (shut_down : S → S) where
  shut-phase : (o : Option ℕ) (s : State S) → phase (shut shut_down o s) ≡ phase s
  shut-phase none s = refl
  shut-phase (some i) s = refl

  -- Closing leaves the state not ready.
  close-phase : (s : State S) → phase (close shut_down s) ≡ phase_of s.stop_requested false s.login
  unfolding close
  close-phase s = shut-phase s.session (record s { session = none; ready = false })

  fail-phase :
      (e : Error) (s : State S) → phase (fail shut_down e s) ≡ phase_of s.stop_requested false idle
  unfolding fail
  fail-phase e s =
      close-phase (record s { last_error = some e; login = idle; connected = some false })

  fail-Move :
      (ok : Bool) (e : Error) (s : State S)
      → attempt s.login ≡ connecting
      → sound (phase s) ≡ true
      → Move (advance ok) (phase s) (phase (fail shut_down e s))
  fail-Move ok e s at h =
      subst (Move (advance ok) (phase s)) (sym (fail-phase e s))
        (leave-Move ok s.stop_requested s.ready s.login at h)

  finish-Move :
      (ok : Bool) (i : ℕ) (s : State S)
      → s.login ≡ awaiting i
      → sound (phase s) ≡ true
      → Move (advance ok) (phase s) (phase (finish i s))
  unfolding finish
  finish-Move ok i s at h = elim (Bool-cases (s.stop_requested || not (is_session s.session i))) [
    | inl late ↦ rw late (leave-Move ok s.stop_requested s.ready s.login (ap attempt at) h)
    | inr current ↦ rw (current, at) (arrive-Move ok s.stop_requested s.ready i (rw at at h))
  ]

  answered-Move :
      (ok : Bool) (i : ℕ) (s : State S)
      → s.login ≡ awaiting i
      → sound (phase s) ≡ true
      → Move (advance ok) (phase s) (phase (answered shut_down i s))
  unfolding answered
  answered-Move ok i s at h =
      elim (Bool-cases (same (header s.login_response).type (codes "login_pending"))) [
        | inl pending ↦ rw pending (stay (advance ok) (phase s))
        | inr final ↦ elim (Bool-cases (same (header s.login_response).type (codes "login_ok"))) [
          | inl right ↦ rw (final, right) (finish-Move ok i s at h)
          | inr wrong ↦ rw (final, wrong) (fail-Move ok _ _ (ap attempt at) h)
        ]
      ]

module _ (library : Library) (c : Channel) (e : Errors c.Socket) (shut_down : c.Socket → c.Socket)
    (config : Config) where
  login_sent-Move :
      (ok : Bool) (i : ℕ) (s : State c.Socket) (o : Option (Option (Bool × World c.Socket)))
      → s.login ≡ at_stage i []
      → sound (phase s) ≡ true
      → Move (advance ok) (phase s) (phase (login_sent library c e shut_down config i s o))
  login_sent-Move ok i s (some (some (true, w))) at h =
      rw at (pass-Move ok s.stop_requested s.ready i [] (awaiting i) refl (rw at at h))
  login_sent-Move ok i s (some (some (false, w))) at h =
      fail-Move shut_down ok _ _ (ap attempt at) h
  login_sent-Move ok i s (some none) at h = stay (advance ok) (phase s)
  login_sent-Move ok i s none at h = stay (advance ok) (phase s)

  login_received-Move :
      (ok : Bool) (i : ℕ) (s : State c.Socket) (o : Option (Checked Message × World c.Socket))
      → s.login ≡ awaiting i
      → sound (phase s) ≡ true
      → Move (advance ok) (phase s) (phase (login_received library c e shut_down config i s o))
  login_received-Move ok i s (some (fine m, w)) at h = answered-Move shut_down ok i _ at h
  login_received-Move ok i s (some (refused x, w)) at h =
      fail-Move shut_down ok _ _ (ap attempt at) h
  login_received-Move ok i s none at h = stay (advance ok) (phase s)

  continue-Move :
      (p : Progress) (ok : Bool) (s : State c.Socket)
      → s.login ≡ p
      → sound (phase s) ≡ true
      → Move (advance ok) (phase s) (phase (continue library c e shut_down config p ok s))
  unfolding continue
  continue-Move idle ok s at h = stay (advance ok) (phase s)
  continue-Move (at_stage i []) ok s at h = login_sent-Move ok i s _ at h
  continue-Move (at_stage i (stage ∷ rest)) ok s at h = elim (Bool-cases (passes config stage ok)) [
    | inl passed ↦
        rw (passed, at)
          (pass-Move ok s.stop_requested s.ready i (stage ∷ rest) (at_stage i rest) refl
            (rw at at h))
    | inr failed ↦ rw failed (fail-Move shut_down ok (stage_error config stage) s (ap attempt at) h)
  ]
  continue-Move (awaiting i) ok s at h = login_received-Move ok i s _ at h

  begin_idle-Move :
      (p : Progress) (s : State c.Socket)
      → s.login ≡ p
      → Move connect_and_login (phase s) (phase (begin_idle p s))
  unfolding begin
  begin_idle-Move idle s at = elim (Bool-cases s.stop_requested) [
    | inl late ↦ rw late (stay connect_and_login halted)
    | inr running ↦ rw (running, at) (begin-Move s.ready)
  ]
  begin_idle-Move (at_stage i rest) s at = stay connect_and_login (phase s)
  begin_idle-Move (awaiting i) s at = stay connect_and_login (phase s)

  start_receive-phase : (s : State c.Socket) → phase (start_receive s) ≡ phase s
  unfolding start_receive
  start_receive-phase s = elim (Bool-cases (not s.ready || s.stop_requested)) [
    | inl unready ↦ rw unready refl
    | inr ready ↦ rw ready refl
  ]

  read_session-phase :
      (o : Option (Option ℕ)) (s : State c.Socket)
      → phase (read_session library c e shut_down config o s) ≡ phase s
  unfolding read_session
  read_session-phase none s = refl
  read_session-phase (some none) s = refl
  read_session-phase (some (some i)) s = after (receive_message library c e (s.links i))
    where
      after :
          (o : Option (Checked Message × World c.Socket))
          → phase (message_read library c e shut_down config i s o) ≡ phase s
      after none = refl
      after (some (fine m, w)) = refl
      after (some (refused x, w)) = refl

  send_over-phase :
      (o : Option ℕ) (m : Message) (s : State c.Socket)
      → phase (send_over library c e shut_down config o m s) ≡ phase s
  send_over-phase none m s = refl
  send_over-phase (some i) m s = after (send_message library c e m (s.links i))
    where
      after :
          (o : Option (Option (Bool × World c.Socket)))
          → phase (message_sent library c e shut_down config i s o) ≡ phase s
      after none = refl
      after (some none) = refl
      after (some (some (true, w))) = refl
      after (some (some (false, w))) = refl

  send_ready-phase :
      (m : Message) (s : State c.Socket)
      → phase (send_ready library c e shut_down config m s) ≡ phase s
  unfolding send_ready
  send_ready-phase m s = elim (Bool-cases (not s.ready || s.stop_requested)) [
    | inl unready ↦ rw unready refl
    | inr ready ↦ rw ready (send_over-phase s.session m s)
  ]

  same-Move : (a : Action) {p q : Phase} → q ≡ p → Move a p q
  same-Move a {p} e = subst (Move a p) (sym e) (stay a p)

  step-Move :
      (a : Action) (s : State c.Socket)
      → sound (phase s) ≡ true
      → Move a (phase s) (phase (step library c e shut_down config a s))
  unfolding step disconnect stop
  step-Move connect_and_login s h = begin_idle-Move s.login s refl
  step-Move (advance ok) s h = continue-Move s.login ok s refl h
  step-Move receive s h = same-Move receive (start_receive-phase s)
  step-Move read s h = same-Move read (read_session-phase s.reader s)
  step-Move (send m) s h = same-Move (send m) (send_ready-phase m s)
  step-Move request_disconnect s h = same-Move request_disconnect (shut-phase shut_down s.session s)
  step-Move request_stop s h =
      subst (Move request_stop (phase s))
        (sym (shut-phase shut_down s.session (record s { stop_requested = true }))) (halt (phase s))
  step-Move close_current s h =
      subst (Move close_current (phase s)) (sym (close-phase shut_down s))
        (close-Move s.stop_requested s.ready s.login h)

  -- The phase of the connection after each step.
  abbrev pub phases : List Action → State c.Socket → List Phase
  phases [] s = []
  phases (a ∷ actions) s =
      let next = step library c e shut_down config a s in phase next ∷ phases actions next

  phases-Follows :
      (actions : List Action) (s : State c.Socket)
      → sound (phase s) ≡ true
      → Follows (phase s) actions (phases actions s)
  phases-Follows [] s h = done (phase s)
  phases-Follows (a ∷ actions) s h =
      let move = step-Move a s h in
      and_then move
        (phases-Follows actions (step library c e shut_down config a s) (Move-sound move h))

  -- Whatever steps the threads of a new connection take, in any order, each step either leaves the phase
  -- of the connection as it was, or it is one of these: a call of connect_and_login takes it from
  -- offline or online to connecting, a step of that call from connecting to online or offline,
  -- close_current from online to offline, and request_stop to halted, which it never leaves; it is
  -- never ready while an attempt to connect is in progress.
  pub run-Moves :
      (links : ℕ → World c.Socket) (actions : List Action)
      → Follows offline actions (phases actions (fresh links))
  run-Moves links actions = phases-Follows actions (fresh links) refl
