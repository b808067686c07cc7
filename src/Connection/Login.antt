-- ===== src/Connection/Login.antt =====
-- A login that nothing disturbs (`connect_and_login` of client-cpp/src/connection.cpp).
use cross_language_lan_chatr.Prelude.{
  ℕ, suc, ◌≡◌, refl, sym, ap, ◌∙◌, subst, Bool, true, false, ◌&&◌, Option, none, some, List, [],
  ◌∷◌, if◌then◌else◌, if_false, ◌==◌, ==_refl, inl, inr, Bool-cases, codes, same, Bytes, replicate,
}
use cross_language_lan_chatr.Protocol.{Channel, Errors, World}
use cross_language_lan_chatr.Message.{Library, Message, fine, header}
use cross_language_lan_chatr.Message.Receive.{send_message, receive_message}
use cross_language_lan_chatr.Connection.{
  Config, Error, Stage, stages, idle, at_stage, awaiting, State, connect_and_login, advance, passes,
  valid_endpoint, update, is_session, is_ready, has_session, login_message, begin, finish, answered,
  close, fail, shut, rejection, rejected, set_link, resolve, open_socket, connect_socket,
  new_context, load_ca, set_up_tls, handshake, verify, begin_idle, begun,
}
use cross_language_lan_chatr.Connection.Threads.{
  login_sent, login_received, continue, step, run, pass,
}

abbrev pub is_type : Message → Bytes → Bool
is_type m type = same (header m).type type

module _ (library : Library) (c : Channel) (e : Errors c.Socket) (shut_down : c.Socket → c.Socket)
    (config : Config) where
  -- The server's answers to a login in a stream: some that it is pending, and a last one.
  pub data Answers : World c.Socket → Message → Type 0 where
    last :
        {w : World c.Socket} (m : Message) (v : World c.Socket)
        → receive_message library c e w ≡ some (fine m, v)
        → is_type m (codes "login_pending") ≡ false
        → Answers w m
    pending :
        {w : World c.Socket} {m : Message} (p : Message) (v : World c.Socket)
        → receive_message library c e w ≡ some (fine p, v)
        → is_type p (codes "login_pending") ≡ true
        → Answers v m
        → Answers w m

  -- The state of a login of the session i of which all calls have succeeded so far.
  pub record Alone (i : ℕ) (s : State c.Socket) : Type 0 where
    pub running : s.stop_requested ≡ false
    pub session : s.session ≡ some i

  -- The outcome of a login that the message m answers.
  pub record Outcome (m : Message) (s : State c.Socket) : Type 0 where
    pub login : s.login ≡ idle
    pub connected : s.connected ≡ some (is_type m (codes "login_ok"))
    pub ready : is_ready s ≡ is_type m (codes "login_ok")

  shut_kept :
      (o : Option ℕ) (s : State c.Socket)
      → ((shut shut_down o s).login ≡ s.login)
        × ((shut shut_down o s).connected ≡ s.connected)
        × ((shut shut_down o s).ready ≡ s.ready)
  shut_kept none s = (refl, refl, refl)
  shut_kept (some i) s = (refl, refl, refl)

  fail_kept :
      (error : Error) (s : State c.Socket)
      → ((fail shut_down error s).login ≡ idle)
        × ((fail shut_down error s).connected ≡ some false)
        × (is_ready (fail shut_down error s) ≡ false)
  unfolding fail close is_ready
  fail_kept error s =
      let (login, connected, ready) = shut_kept s.session (record s {
        last_error = some error;
        login = idle;
        connected = some false;
        session = none;
        ready = false;
      }) in
      (login, connected, unready _ _ _ ready)
    where
      unready : (b d f : Bool) → b ≡ false → b && d && f ≡ false
      unready b d f e = rw e refl

  answered-Outcome :
      (i : ℕ) (s : State c.Socket)
      → Alone i s
      → is_type s.login_response (codes "login_pending") ≡ false
      → Outcome s.login_response (answered shut_down i s)
  unfolding answered finish is_ready
  answered-Outcome i s h final = elim (Bool-cases (is_type s.login_response (codes "login_ok"))) [
    | inl ok ↦
        let running = h.running in
        let current = ap (λ o. is_session o i) h.session ∙ ==_refl i in
        let there = ap has_session h.session in
        rw (final, ok, running, current)
          record { login = refl; connected = ap some (sym ok); ready = there ∙ sym ok }
    | inr wrong ↦
        let (login, connected, ready) =
          fail_kept (rejection (header s.login_response).content)
            (record s { result = rejected }) in
        rw (final, wrong)
          record {
            login = login;
            connected = connected ∙ ap some (sym wrong);
            ready = ready ∙ sym wrong;
          }
  ]

  -- The state after a message has been read from the stream of a session.
  abbrev heard : ℕ → World c.Socket → Message → State c.Socket → State c.Socket
  heard i v m s = record (set_link i v s) { login_response = m }

  step-heard :
      (i : ℕ) (s : State c.Socket) (m : Message) (v : World c.Socket)
      → s.login ≡ awaiting i
      → receive_message library c e (s.links i) ≡ some (fine m, v)
      → step library c e shut_down config (advance true) s ≡ answered shut_down i (heard i v m s)
  unfolding step continue
  step-heard i s m v at got =
      ap (λ p. continue library c e shut_down config p true s) at
      ∙ ap (login_received library c e shut_down config i s) got

  answered_pending :
      (i : ℕ) (s : State c.Socket)
      → is_type s.login_response (codes "login_pending") ≡ true
      → answered shut_down i s ≡ s
  unfolding answered
  answered_pending i s more = rw more refl

  awaiting-Outcome :
      (i : ℕ) (s : State c.Socket) (w : World c.Socket) {m : Message}
      → Alone i s
      → s.login ≡ awaiting i
      → s.links i ≡ w
      → Answers w m
      → (n : ℕ) × Outcome m (run library c e shut_down config (replicate n (advance true)) s)
  unfolding run step continue
  awaiting-Outcome i s w h at link (last m v got final) =
      let heard_last = step-heard i s m v at (ap (receive_message library c e) link ∙ got) in
      (
        1,
        subst (Outcome m) (sym heard_last) (
            answered-Outcome i (heard i v m s) record { running = h.running; session = h.session }
              final),
      )
  awaiting-Outcome i s w {m} h at link (pending p v got more answers) =
      let heard_one =
        step-heard i s p v at (ap (receive_message library c e) link ∙ got)
        ∙ answered_pending i (heard i v p s) more in
      let (n, outcome) =
        awaiting-Outcome i (heard i v p s) v record { running = h.running; session = h.session } at
          (updated i v) answers in
      (
        suc n,
        subst (λ t. Outcome m (run library c e shut_down config (replicate n (advance true)) t))
            (sym heard_one) outcome,
      )
    where
      updated : (i : ℕ) (v : World c.Socket) → (if i == i then v else s.links i) ≡ v
      updated i v = let self = ==_refl i in rw self refl

  passes-valid : (stage : Stage) → valid_endpoint config ≡ true → passes config stage true ≡ true
  passes-valid resolve h = rw h refl
  passes-valid open_socket h = refl
  passes-valid connect_socket h = refl
  passes-valid new_context h = refl
  passes-valid load_ca h = refl
  passes-valid set_up_tls h = refl
  passes-valid handshake h = refl
  passes-valid verify h = refl

  step-pass :
      (i : ℕ) (stage : Stage) (rest : List Stage) (s : State c.Socket)
      → valid_endpoint config ≡ true
      → s.login ≡ at_stage i (stage ∷ rest)
      → step library c e shut_down config (advance true) s
        ≡ pass library c e shut_down config i stage rest s
  unfolding step continue
  step-pass i stage rest s valid at =
      let passed = passes-valid stage valid in
      ap (λ p. continue library c e shut_down config p true s) at ∙ rw passed refl

  step-login :
      (i : ℕ) (s : State c.Socket) (w : World c.Socket)
      → s.login ≡ at_stage i []
      → send_message library c e (login_message config) (s.links i) ≡ some (some (true, w))
      → step library c e shut_down config (advance true) s
        ≡ record (set_link i w s) { login = awaiting i }
  unfolding step continue
  step-login i s w at gone =
      ap (λ p. continue library c e shut_down config p true s) at
      ∙ ap (login_sent library c e shut_down config i s) gone

  stages-Outcome :
      (rest : List Stage) (i : ℕ) (s : State c.Socket) (w : World c.Socket) {m : Message}
      → valid_endpoint config ≡ true
      → Alone i s
      → s.login ≡ at_stage i rest
      → send_message library c e (login_message config) (s.links i) ≡ some (some (true, w))
      → Answers w m
      → (n : ℕ) × Outcome m (run library c e shut_down config (replicate n (advance true)) s)
  unfolding run
  stages-Outcome [] i s w {m} valid h at gone answers =
      let (n, outcome) =
        awaiting-Outcome i (record (set_link i w s) { login = awaiting i }) w
          record { running = h.running; session = h.session } refl (updated i w) answers in
      (
        suc n,
        subst (λ t. Outcome m (run library c e shut_down config (replicate n (advance true)) t))
            (sym (step-login i s w at gone)) outcome,
      )
    where
      updated : (i : ℕ) (v : World c.Socket) → (if i == i then v else s.links i) ≡ v
      updated i v = let self = ==_refl i in rw self refl
  stages-Outcome (stage ∷ rest) i s w {m} valid h at gone answers =
      let (n, outcome) =
        stages-Outcome rest i (pass library c e shut_down config i stage rest s) w valid
          record { running = h.running; session = h.session } refl gone answers in
      (
        suc n,
        subst (λ t. Outcome m (run library c e shut_down config (replicate n (advance true)) t))
            (sym (step-pass i stage rest s valid at)) outcome,
      )

  abbrev started : State c.Socket → State c.Socket
  started s = record (begun s) {
    session = some s.next;
    ready = false;
    next = suc s.next;
    has_ssl = update s.has_ssl s.next false;
    login = at_stage s.next stages;
  }

  step-started :
      (s : State c.Socket)
      → s.login ≡ idle
      → s.stop_requested ≡ false
      → step library c e shut_down config connect_and_login s ≡ started s
  unfolding step begin
  step-started s at running =
      ap (λ p. begin_idle p s) at ∙ if_false s.stop_requested _ (started s) running

  -- An attempt to connect, of a connection that has not been stopped to a valid endpoint, of which every
  -- call succeeds, whose login message is sent and which the server answers with any number of pending
  -- answers and a last one, ends after so many steps if no other thread acts: it returns true and is
  -- ready if the last answer is `login_ok`, and otherwise returns false and is not ready.
  pub login_ends :
      (s : State c.Socket) (w : World c.Socket) (m : Message)
      → s.login ≡ idle
      → s.stop_requested ≡ false
      → valid_endpoint config ≡ true
      → send_message library c e (login_message config) (s.links s.next) ≡ some (some (true, w))
      → Answers w m
      → (n : ℕ) × Outcome m
          (run library c e shut_down config (connect_and_login ∷ replicate n (advance true)) s)
  unfolding run
  login_ends s w m at running valid gone answers =
      let (n, outcome) =
        stages-Outcome stages s.next (started s) w valid
          record { running = running; session = refl } refl gone answers in
      (
        n,
        subst (λ t. Outcome m (run library c e shut_down config (replicate n (advance true)) t))
            (sym (step-started s at running)) outcome,
      )
