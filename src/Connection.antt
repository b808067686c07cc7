-- ===== src/Connection.antt =====
-- The connection of a client to the server: `ConnectionState` of client-cpp/src/connection.cpp, which
-- several threads share. A step is what a thread does between two moments at which another may act:
-- a section under the mutex, or one call of the socket, TLS or message functions. One thread at a time
-- is in `connect_and_login`, and one in `receive`. Sessions have numbers; `links` is the stream behind
-- a session's handle and `has_ssl` whether its `ssl` is set. `Action.advance` carries the answer of the
-- socket and TLS libraries; the destructor is `request_stop` and `close_current`. The message and frame functions are those of Message and Protocol.
pub mod Threads
pub mod Stopped
pub mod Sound
pub mod Phases
pub mod Login
mod Tests
use cross_language_lan_chatr.Prelude.{
  ℕ, zero, suc, ◌+◌, Bool, true, false, not, ◌&&◌, ◌||◌, Option, none, some, List, [], ◌∷◌,
  if◌then◌else◌, ◌==◌, leb_ℤ, is_empty, Bytes, codes, same, ℤ, pos,
}
use cross_language_lan_chatr.Protocol as Frames
use cross_language_lan_chatr.Protocol.{Channel, Errors, World}
use cross_language_lan_chatr.Message as Messages
use cross_language_lan_chatr.Message.{
  Library, empty_header, empty_message, Message, message, no_messages, header, Checked, fine,
  refused,
}
use cross_language_lan_chatr.Message.Receive.{send_message, receive_message}

pub record Config : Type 0 where
  pub server_ip : Bytes
  pub server_port : ℤ
  pub username : Bytes
  pub user_code : Bytes
  pub ca_file : Bytes
  pub tls_server_name : Bytes

-- The libraries' own words behind a text of `openssl_error` are left out.
pub data Error : Type 0 where
  invalid_endpoint unresolved_host socket_failed connect_failed context_failed : Error
  no_ca_paths ca_file_failed tls_setup_failed handshake_failed verification_failed : Error
  exchange_failed login_rejected not_ready previous_message_error : Error
  rejected_with : Bytes → Error
  message_error : Messages.Error → Error
  frame_error : Option Frames.Error → Error

pub data LoginResult : Type 0 where
  success retryable_failure rejected : LoginResult

-- The calls of `connect_and_login` up to the exchange of messages.
pub data Stage : Type 0 where
  resolve open_socket connect_socket new_context load_ca set_up_tls handshake verify : Stage

abbrev pub stages : List Stage
stages =
    resolve ∷ open_socket ∷ connect_socket ∷ new_context ∷ load_ca ∷ set_up_tls ∷ handshake ∷ verify
    ∷ []

-- Where the thread in `connect_and_login` is: it has a candidate, whose stages are still to do, or whose
-- answer to the login it awaits.
pub data Progress : Type 0 where
  idle : Progress
  at_stage : ℕ → List Stage → Progress
  awaiting : ℕ → Progress

pub record State (Socket : Type 0) : Type 0 where
  pub links : ℕ → World Socket
  pub has_ssl : ℕ → Bool
  pub next : ℕ
  pub session : Option ℕ
  pub ready : Bool
  pub stop_requested : Bool
  pub last_error : Option Error
  pub login : Progress
  -- What `connect_and_login` has returned, and its two outputs.
  pub connected : Option Bool
  pub login_response : Message
  pub result : LoginResult
  -- The session that the thread in `receive` has taken, and what `receive` and `send` have returned.
  pub reader : Option (Option ℕ)
  pub received : Option (Option Message)
  pub sent : Option Bool

pub data Action : Type 0 where
  connect_and_login receive read request_disconnect request_stop close_current : Action
  advance : Bool → Action
  send : Message → Action

abbrev pub update {ℓ} : {A : Type ℓ} → (ℕ → A) → ℕ → A → ℕ → A
update f i a j = if j == i then a else f j

abbrev pub valid_endpoint : Config → Bool
valid_endpoint config =
    not (is_empty config.server_ip)
    && leb_ℤ (pos 1) config.server_port
    && leb_ℤ config.server_port (pos 65535)

-- `getaddrinfo` is not called for an endpoint that is not valid.
abbrev pub passes : Config → Stage → Bool → Bool
passes config resolve ok = valid_endpoint config && ok
passes config _ ok = ok

abbrev pub stage_error : Config → Stage → Error
stage_error config resolve = if valid_endpoint config then unresolved_host else invalid_endpoint
stage_error config open_socket = socket_failed
stage_error config connect_socket = connect_failed
stage_error config new_context = context_failed
stage_error config load_ca = if is_empty config.ca_file then no_ca_paths else ca_file_failed
stage_error config set_up_tls = tls_setup_failed
stage_error config handshake = handshake_failed
stage_error config verify = verification_failed

abbrev pub gives_ssl : Stage → Bool
gives_ssl set_up_tls = true
gives_ssl _ = false

-- `auth::make_login_message`.
abbrev pub login_message : Config → Message
login_message config =
    message
      (record empty_header {
        type = codes "login";
        username = config.username;
        user_code = config.user_code;
      })
      no_messages

abbrev pub is_session : Option ℕ → ℕ → Bool
is_session none i = false
is_session (some j) i = j == i

abbrev pub has_session : Option ℕ → Bool
has_session none = false
has_session (some i) = true

abbrev pub rejection : Bytes → Error
rejection content = if is_empty content then login_rejected else rejected_with content

module _ {Socket : Type 0} where
  unfoldable pub is_ready : State Socket → Bool
  is_ready s = s.ready && not s.stop_requested && has_session s.session

  -- What the wait gives with the flags as they are at its end.
  abbrev pub wait_before_retry : State Socket → Bool → Bool → Bool
  wait_before_retry s running reconnect_enabled =
      not (s.stop_requested || not running || not reconnect_enabled)

  abbrev pub set_link : ℕ → World Socket → State Socket → State Socket
  set_link i w s = record s { links = update s.links i w }

  abbrev pub begun : State Socket → State Socket
  begun s = record s {
    login_response = empty_message;
    result = retryable_failure;
    connected = none;
  }

  unfoldable pub begin : State Socket → State Socket
  begin s =
      if s.stop_requested then record (begun s) { connected = some false } else record (begun s) {
        session = some s.next;
        ready = false;
        next = suc s.next;
        has_ssl = update s.has_ssl s.next false;
        login = at_stage s.next stages;
      }

  -- The last section of `connect_and_login`.
  unfoldable pub finish : ℕ → State Socket → State Socket
  finish i s =
      if s.stop_requested || not (is_session s.session i)
      then record s { ready = false; login = idle; connected = some false }
      else record s {
        ready = true;
        last_error = none;
        login = idle;
        connected = some true;
        result = success;
      }

  abbrev pub begin_idle : Progress → State Socket → State Socket
  begin_idle idle s = begin s
  begin_idle _ s = s

  -- The section of `receive` that takes the session.
  unfoldable pub start_receive : State Socket → State Socket
  start_receive s =
      if not s.ready || s.stop_requested
      then record s { reader = none; received = some none }
      else record s { reader = some s.session; received = none }

  -- A connection as it is constructed.
  abbrev pub fresh : (ℕ → World Socket) → State Socket
  fresh links = record {
    links = links;
    has_ssl = λ i. false;
    next = 0;
    session = none;
    ready = false;
    stop_requested = false;
    last_error = none;
    login = idle;
    connected = none;
    login_response = empty_message;
    result = retryable_failure;
    reader = none;
    received = none;
    sent = none;
  }

  module _ (shut_down : Socket → Socket) where
    -- `shutdown` of a session's socket, if there is one.
    abbrev pub shut : Option ℕ → State Socket → State Socket
    shut none s = s
    shut (some i) s = set_link i (record (s.links i) { socket = shut_down (s.links i).socket }) s

    unfoldable pub close : State Socket → State Socket
    close s = shut s.session (record s { session = none; ready = false })

    unfoldable pub disconnect : State Socket → State Socket
    disconnect s = shut s.session s

    unfoldable pub stop : State Socket → State Socket
    stop s = shut s.session (record s { stop_requested = true })

    unfoldable pub fail : Error → State Socket → State Socket
    fail e s = close (record s { last_error = some e; login = idle; connected = some false })

    unfoldable pub answered : ℕ → State Socket → State Socket
    answered i s =
        let answer = header s.login_response in
        if same answer.type (codes "login_pending")
        then s
        else if not (same answer.type (codes "login_ok"))
        then fail (rejection answer.content) (record s { result = rejected })
        else finish i s
