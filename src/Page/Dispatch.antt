-- ===== src/Page/Dispatch.antt =====
-- The requests of the page: `ChatBridge::dispatch` of client-cpp/gui/src/chat_bridge.cpp. The calls of
-- the controller and the other objects are noted in a list, the last first.
use cross_language_lan_chatr.Prelude.{
  Bool, true, false, not, Option, none, some, List, [], ◌∷◌, if◌then◌else◌, Bytes, codes,
}
use cross_language_lan_chatr.Prelude.Map.{insert, erase, bytes_eq}
use cross_language_lan_chatr.Json.{Json, Members, no_members, get}
use cross_language_lan_chatr.Bridge.{Qt, to_text, to_object, make_error, is_object}
use cross_language_lan_chatr.Bridge.Rules.{validate_command, invalid_command}
use cross_language_lan_chatr.Page.{to_bool}
use cross_language_lan_chatr.Page.Steps.{State, schedule_state_update, send_result}
use cross_language_lan_chatr.Page.Branches.{
  Call, connect_to_server_with_tls_name, refresh, recall_message, set_mode, set_enabled,
  write_connection_event, Host, Replies, Branch, answered, awaited, handed_on, discover, report,
  frames, connect_host, recall, choose_mode, logging, field, items_in, observe_all, entries,
  branch_of,
}

-- The texts of a malformed request and of a missing capability, in Chinese.
pub record Texts : Type 0 where
  pub invalid_text : Bytes
  pub capability_text : Bytes

-- The bridge and the calls that it has made.
abbrev pub Caller : Type 0
Caller = State × List Call

module _ (replies : Replies) where
  abbrev pub answer_ok : Bytes → State → State
  answer_ok id s = schedule_state_update (send_result id true no_members s)

  abbrev pub refuse : Bytes → Bytes → Bool → Bytes → Bytes → State → State
  refuse code message retryable source id s =
      send_result id false (make_error code message retryable source id) s

  -- With the error of `refresh`.
  unfoldable pub discovered : Bytes → State → Option Bytes → State
  discovered id s none = answer_ok id s
  discovered id s (some error) =
      schedule_state_update
        (refuse (codes "discovery_unavailable") error true (codes "bridge") id s)

  -- With the path of the host's certificate.
  unfoldable pub certified : Members → Bytes → Host → Bytes → Caller → Caller
  certified p id host [] (s, calls) = (
    schedule_state_update (
        refuse (codes "discovery_certificate_failed") replies.persist_error false (codes "bridge")
          id s),
    calls,
  )
  certified p id host (c ∷ path) (s, calls) = (
    answer_ok id s,
    connect_to_server_with_tls_name host.server_ip host.server_port (field (codes "username") p)
          (field (codes "userCode") p) (c ∷ path) (codes "localhost")
        ∷ calls,
  )

  -- With what `connectData` has found and its error.
  unfoldable pub do_connect_host : Members → Bytes → Host × Option Bytes → Caller → Caller
  do_connect_host p id (host, some error) (s, calls) = (
    schedule_state_update
        (refuse (codes "discovery_host_unavailable") error true (codes "bridge") id s),
    calls,
  )
  do_connect_host p id (host, none) b = certified p id host (replies.persist_certificate host) b

  abbrev pub recall_refusal : Bytes
  recall_refusal = codes "Recall is only available to the message author or an administrator"

  -- With what `recallMessage` returns.
  unfoldable pub do_recall : Bytes → Bool → State → State
  do_recall id true s =
      schedule_state_update (record s { pending_recalls = insert id id s.pending_recalls })
  do_recall id false s =
      refuse (codes "permission_denied") recall_refusal false (codes "controller") id
        (record s { pending_recalls = erase id (insert id id s.pending_recalls) })

  -- With the profile, if there is one; `capability_text` is the text of the error, in Chinese.
  unfoldable pub do_choose_mode : Bytes → Members → Bytes → Option (Bytes → Json) → Caller → Caller
  do_choose_mode capability_text p id none (s, calls) =
      (refuse (codes "capability_unavailable") capability_text false (codes "bridge") id s, calls)
  do_choose_mode capability_text p id (some getter) (s, calls) =
      (answer_ok id s, set_mode (field (codes "mode") p) ∷ calls)

  unfoldable pub do_frames : Members → Option (Bytes → Json) → Caller → Caller
  do_frames p none b = b
  do_frames p (some getter) (s, calls) =
      (schedule_state_update s, observe_all (items_in (get (codes "frameTimesMs") p)) calls)

  abbrev pub do_logging : Members → Bytes → Caller → Caller
  do_logging p id (s, calls) =
      let enabled = to_bool (get (codes "enabled") p) in
      let window = record s.window { diagnostics_enabled = replies.enabled_after enabled } in
      (
        answer_ok id (schedule_state_update (record s { window = window })),
        set_enabled enabled ∷ calls,
      )

  unfoldable pub take_branch : Bytes → Branch → Members → Bytes → Caller → Caller
  take_branch t (answered call) p id (s, calls) = (answer_ok id s, call ∷ calls)
  take_branch t (awaited call) p id (s, calls) = (schedule_state_update s, call ∷ calls)
  take_branch t (handed_on call) p id (s, calls) = (s, call ∷ calls)
  take_branch t discover p id (s, calls) = (discovered id s replies.refresh_error, refresh ∷ calls)
  take_branch t connect_host p id b =
      do_connect_host p id (replies.connect_data (field (codes "hostId") p)) b
  take_branch t recall p id (s, calls) =
      let message = field (codes "messageId") p in
      (do_recall id (replies.may_recall message) s, recall_message message id ∷ calls)
  take_branch t choose_mode p id (s, calls) = do_choose_mode t p id s.window.performance (s, calls)
  take_branch t logging p id b = do_logging p id b
  take_branch t report p id (s, calls) = (
    send_result id true no_members s,
    write_connection_event (field (codes "name") p) (field (codes "stack") p) ∷ calls,
  )
  take_branch t frames p id (s, calls) = do_frames p s.window.performance (s, calls)

  -- A type with no branch falls through to the last lines.
  abbrev pub chosen_branch :
      Bytes → Option (Members → Bytes → Branch) → Members → Bytes → Caller → Caller
  chosen_branch t none p id (s, calls) = (answer_ok id s, calls)
  chosen_branch t (some branch) p id b = take_branch t (branch p id) p id b

  abbrev pub emit_invalid_command : Texts → Bytes → Bytes → State → State
  emit_invalid_command texts id code s = refuse code texts.invalid_text false (codes "bridge") id s

  -- `none` is a text that does not parse.
  unfoldable pub dispatch : Qt → Texts → Option Json → Caller → Caller
  dispatch qt texts document (s, calls) =
      let command = to_object document in
      let id = to_text (get (codes "id") command) in
      let (valid, code) = validate_command qt command in
      if not (is_object document)
      then (emit_invalid_command texts [] invalid_command s, calls)
      else if not valid
      then (emit_invalid_command texts id code s, calls)
      else chosen_branch texts.capability_text
          (branch_of replies (entries replies) (to_text (get (codes "type") command)))
          (to_object (get (codes "payload") command)) id (s, calls)
