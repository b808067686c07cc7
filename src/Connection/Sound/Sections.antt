-- ===== src/Connection/Sound/Sections.antt =====
-- The sections under the mutex keep the handles (client-cpp/src/connection.cpp).
use cross_language_lan_chatr.Prelude.{
  ℕ, suc, ◌<◌, ◌≡◌, refl, sym, subst, Bool, true, false, not, ◌||◌, Option, none, some, List, [],
  ◌∷◌, arith, ◌==◌, inl, inr, Bool-cases, codes, same,
}
use cross_language_lan_chatr.Message.{header}
use cross_language_lan_chatr.Connection.{
  Error, Stage, stages, Progress, idle, at_stage, awaiting, State, update, gives_ssl, is_session,
  shut, close, fail, begin, finish, answered,
}

-- A session that exists and has an SSL handle.
abbrev pub Usable : ℕ → (ℕ → Bool) → ℕ → Type 0
Usable n ssl i = (i < n) × (ssl i ≡ true)

abbrev pub UsableReader : ℕ → (ℕ → Bool) → Option (Option ℕ) → Type 0
UsableReader n ssl (some (some i)) = Usable n ssl i
UsableReader n ssl _ = Unit {0}

abbrev pub UsableSession : ℕ → (ℕ → Bool) → Option ℕ → Type 0
UsableSession n ssl none = ⊥
UsableSession n ssl (some i) = Usable n ssl i

-- Whether the handle is still to be made.
abbrev pub makes_ssl : List Stage → Bool
makes_ssl [] = false
makes_ssl (stage ∷ rest) = gives_ssl stage || makes_ssl rest

abbrev pub Candidate : ℕ → (ℕ → Bool) → Progress → Type 0
Candidate n ssl idle = Unit {0}
Candidate n ssl (at_stage i rest) = (i < n) × (ssl i || makes_ssl rest ≡ true)
Candidate n ssl (awaiting i) = Usable n ssl i

-- The sessions that a thread may use are usable; a session that is ready is there.
pub record Sound {S : Type 0} (s : State S) : Type 0 where
  pub ready : s.ready ≡ true → UsableSession s.next s.has_ssl s.session
  pub reader : UsableReader s.next s.has_ssl s.reader
  pub login : Candidate s.next s.has_ssl s.login

pub or-right : (b c : Bool) → c ≡ true → b || c ≡ true
or-right true c e = refl
or-right false c e = e

module _ (n : ℕ) (ssl : ℕ → Bool) (n' : ℕ) (ssl' : ℕ → Bool)
    (grown : (i : ℕ) → Usable n ssl i → Usable n' ssl' i) where
  pub reader_kept : (o : Option (Option ℕ)) → UsableReader n ssl o → UsableReader n' ssl' o
  reader_kept none u = tt
  reader_kept (some none) u = tt
  reader_kept (some (some i)) u = grown i u

  pub session_kept : (o : Option ℕ) → UsableSession n ssl o → UsableSession n' ssl' o
  session_kept none u = u
  session_kept (some i) u = grown i u

module _ {S : Type 0} (shut_down : S → S) where
  pub shut-Sound : (o : Option ℕ) (s : State S) → Sound s → Sound (shut shut_down o s)
  shut-Sound none s h = h
  shut-Sound (some i) s h = record { ready = h.ready; reader = h.reader; login = h.login }

  pub close-Sound : (s : State S) → Sound s → Sound (close shut_down s)
  unfolding close
  close-Sound s h =
      shut-Sound s.session _
        record { ready = λ e. absurd (cc e); reader = h.reader; login = h.login }

  pub fail-Sound : (e : Error) (s : State S) → Sound s → Sound (fail shut_down e s)
  unfolding fail
  fail-Sound e s h = close-Sound _ record { ready = h.ready; reader = h.reader; login = tt }

  -- A step that makes the candidate the session that is ready.
  pub finish-Sound :
      (i : ℕ) (s : State S) → Usable s.next s.has_ssl i → Sound s → Sound (finish i s)
  unfolding finish
  finish-Sound i s u h = elim (Bool-cases (s.stop_requested || not (is_session s.session i))) [
    | inl stopped ↦ rw stopped record { ready = λ e. absurd (cc e); reader = h.reader; login = tt }
    | inr current ↦ rw current record {
      ready =
          λ _. current_usable s.session (neither s.stop_requested (is_session s.session i) current);
      reader = h.reader;
      login = tt;
    }
  ]
    where
      neither : (b c : Bool) → b || not c ≡ false → c ≡ true
      neither b true e = refl
      neither true false e = absurd (cc e)
      neither false false e = absurd (cc e)

      current_usable : (o : Option ℕ) → is_session o i ≡ true → UsableSession s.next s.has_ssl o
      current_usable none e = absurd (cc e)
      current_usable (some j) e =
          let at : j ≡ i = ground arith in subst (Usable s.next s.has_ssl) (sym at) u

  pub answered-Sound :
      (i : ℕ) (s : State S) → Usable s.next s.has_ssl i → Sound s → Sound (answered shut_down i s)
  unfolding answered
  answered-Sound i s u h =
      elim (Bool-cases (same (header s.login_response).type (codes "login_pending"))) [
        | inl pending ↦ rw pending h
        | inr final ↦ elim (Bool-cases (same (header s.login_response).type (codes "login_ok"))) [
          | inl ok ↦ rw (final, ok) (finish-Sound i s u h)
          | inr wrong ↦
              rw (final, wrong)
                (fail-Sound _ _ record { ready = h.ready; reader = h.reader; login = h.login })
        ]
      ]

pub begin-Sound : {S : Type 0} → (s : State S) → Sound s → Sound (begin s)
unfolding begin
begin-Sound s h = elim (Bool-cases s.stop_requested) [
  | inl stopped ↦ rw stopped record { ready = h.ready; reader = h.reader; login = h.login }
  | inr running ↦ rw running record {
    ready = λ e. absurd (cc e);
    reader =
        reader_kept s.next s.has_ssl (suc s.next) (update s.has_ssl s.next false) grown s.reader
          h.reader;
    login = (omega arith, or-right (update s.has_ssl s.next false s.next) (makes_ssl stages) refl);
  }
]
  where
    grown :
        (i : ℕ)
        → Usable s.next s.has_ssl i
        → (i < suc s.next) × (update s.has_ssl s.next false i ≡ true)
    grown i (below, made) =
        let other : (i == s.next) ≡ false = ground arith in (omega arith, rw other made)
