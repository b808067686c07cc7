-- ===== src/Bridge/Rules.antt =====
-- The checks of a request: `validatePayload` and `validateCommand` of
-- client-cpp/gui/src/bridge_protocol.cpp.
use cross_language_lan_chatr.Prelude.{
  Bool, true, false, not, ◌&&◌, ◌||◌, List, [], ◌∷◌, ◌++◌, if◌then◌else◌, ◌==◌, length, Bytes,
  codes, same,
}
use cross_language_lan_chatr.Json.{Members, get}
use cross_language_lan_chatr.Bridge.{
  Qt, is_text, is_undefined, is_object, to_text, to_object, has_no_members, has_key, boolean_value,
  has_opaque_crypto, non_empty_string, bounded_utf8_string, integer_value, bounded_frame_times,
  has_required_strings, valid_logical_size, not_negative, valid_chunk_index,
}

-- The types of one branch of `validatePayload`, the strings that it requires and what else it asks.
pub record Rule : Type 0 where
  pub types : List Bytes
  pub required : List Bytes
  pub extra : Members → Bool

abbrev pub one_type : Bytes → List Bytes → (Members → Bool) → Rule
one_type type required extra = record { types = type ∷ []; required = required; extra = extra }

abbrev pub performance_modes : List Bytes
performance_modes = codes "Automatic" ∷ codes "High" ∷ codes "Balanced" ∷ codes "Power Saving" ∷ []

abbrev pub nothing_else : Members → Bool
nothing_else payload = true

abbrev pub invalid_command : Bytes
invalid_command = codes "invalid_command"

module _ (qt : Qt) where
  abbrev pub accepts : Rule → Members → Bool
  accepts rule payload = has_required_strings qt payload rule.required && rule.extra payload

  abbrev pub content_or_crypto : Members → Bool
  content_or_crypto payload =
      non_empty_string qt payload (codes "content") || has_opaque_crypto payload

  abbrev pub remote_options : Members → Bool
  remote_options payload =
      integer_value qt payload (codes "serverPort")
      && (is_undefined (get (codes "caFile") payload) || is_text (get (codes "caFile") payload))
      && (is_undefined (get (codes "tlsServerName") payload)
          || (is_text (get (codes "tlsServerName") payload)
              && same (to_text (get (codes "tlsServerName") payload)) (codes "localhost")))

  abbrev pub valid_chunk : Members → Bool
  valid_chunk payload =
      let hash = to_text (get (codes "cipherSha256") payload) in
      valid_chunk_index qt (get (codes "chunkIndex") payload)
      && length hash == 64
      && same hash (qt.to_lower hash)

  abbrev pub crash_report : Members → Bool
  crash_report payload =
      bounded_utf8_string qt payload (codes "name") 2048 true
      && bounded_utf8_string qt payload (codes "stack") 2048 false

  abbrev pub session_rules : List Rule
  session_rules =
      one_type (codes "session.connectRemote")
        (codes "serverIp" ∷ codes "username" ∷ codes "userCode" ∷ []) remote_options
      ∷ one_type (codes "session.connectLocalHost")
          (codes "serverExe"
            ∷ codes "certFile"
            ∷ codes "keyFile"
            ∷ codes "dbFile"
            ∷ codes "username"
            ∷ codes "userCode"
            ∷ [])
          nothing_else
      ∷ one_type (codes "session.discoverLanHosts") [] has_no_members
      ∷ one_type (codes "session.connectDiscoveredHost")
          (codes "hostId" ∷ codes "username" ∷ codes "userCode" ∷ []) nothing_else
      ∷ record {
        types =
            codes "session.disconnect"
            ∷ codes "directory.refreshUsers"
            ∷ codes "directory.refreshRooms"
            ∷ [];
        required = [];
        extra = has_no_members;
      }
      ∷ []

  abbrev pub chat_rules : List Rule
  chat_rules =
      one_type (codes "chat.sendRoom") (codes "room" ∷ []) content_or_crypto
      ∷ one_type (codes "chat.sendPrivate") (codes "targetUserCode" ∷ []) content_or_crypto
      ∷ one_type (codes "mls.keyPackage.fetch") (codes "room" ∷ codes "targetUserCode" ∷ [])
          nothing_else
      ∷ record {
        types = codes "mls.group.add" ∷ codes "mls.group.remove" ∷ [];
        required = codes "room" ∷ codes "groupId" ∷ codes "targetUserCode" ∷ [];
        extra = nothing_else;
      }
      ∷ []

  abbrev pub attachment_rules : List Rule
  attachment_rules =
      one_type (codes "attachment.init") (codes "room" ∷ [])
        (λ payload. valid_logical_size qt (get (codes "logicalSize") payload))
      ∷ one_type (codes "attachment.chooseUpload") (codes "room" ∷ []) nothing_else
      ∷ one_type (codes "attachment.chunk")
          (codes "uploadId" ∷ codes "ciphertext" ∷ codes "cipherSha256" ∷ []) valid_chunk
      ∷ one_type (codes "attachment.resume") (codes "uploadId" ∷ []) nothing_else
      ∷ one_type (codes "attachment.commit") (codes "uploadId" ∷ []) nothing_else
      ∷ one_type (codes "attachment.download") (codes "attachmentId" ∷ [])
          (λ payload. not_negative qt (get (codes "chunkIndex") payload))
      ∷ []

  abbrev pub room_rules : List Rule
  room_rules =
      one_type (codes "history.search") [] (λ payload. is_text (get (codes "query") payload))
      ∷ one_type (codes "conversation.selectRoom") (codes "room" ∷ []) nothing_else
      ∷ one_type (codes "conversation.selectDirect") (codes "userCode" ∷ []) nothing_else
      ∷ one_type (codes "conversation.openPrivate") (codes "displayName" ∷ codes "userCode" ∷ [])
          nothing_else
      ∷ one_type (codes "room.create") (codes "room" ∷ [])
          (λ payload. boolean_value payload (codes "isPrivate"))
      ∷ one_type (codes "room.action") (codes "action" ∷ codes "room" ∷ []) nothing_else
      ∷ one_type (codes "admin.action") (codes "action" ∷ []) nothing_else
      ∷ []

  abbrev pub other_rules : List Rule
  other_rules =
      one_type (codes "message.copy") [] (λ payload. is_text (get (codes "text") payload))
      ∷ record {
        types = codes "message.removeLocal" ∷ codes "message.recall" ∷ codes "message.retry" ∷ [];
        required = codes "messageId" ∷ [];
        extra = nothing_else;
      }
      ∷ one_type (codes "settings.setPerformanceMode") []
          (λ payload. has_key performance_modes (to_text (get (codes "mode") payload)))
      ∷ one_type (codes "settings.setConnectionLogging") []
          (λ payload. boolean_value payload (codes "enabled"))
      ∷ one_type (codes "diagnostics.frontendError") [] crash_report
      ∷ one_type (codes "performance.reportFrameTimes") [] (bounded_frame_times qt)
      ∷ []

  -- The branches of `validatePayload` in their order.
  abbrev pub rules : List Rule
  rules = session_rules ++ chat_rules ++ attachment_rules ++ room_rules ++ other_rules

  unfoldable pub first_rule : List Rule → Bytes → Members → Bool
  first_rule [] type payload = false
  first_rule (rule ∷ others) type payload =
      let rest = first_rule others type payload in
      if has_key rule.types type then accepts rule payload else rest

  abbrev pub validate_payload : Bytes → Members → Bool
  validate_payload = first_rule rules

  -- With the error code that is left in `*errorCode`.
  unfoldable pub validate_command : Members → Bool × Bytes
  validate_command command =
      if not (non_empty_string qt command (codes "id"))
        || not (non_empty_string qt command (codes "type"))
        || not (is_object (get (codes "payload") command))
      then (false, invalid_command)
      else if not (
          validate_payload (to_text (get (codes "type") command))
            (to_object (get (codes "payload") command)))
      then (false, invalid_command)
      else (true, [])
