-- ===== src/Page/Branches.antt =====
-- The branches of `ChatBridge::dispatch` (client-cpp/gui/src/chat_bridge.cpp): a table of the types of
-- requests and of what each of them calls. What the calls return is the parameter `Replies`.
use cross_language_lan_chatr.Prelude.{
  Bool, Option, none, some, List, [], ◌∷◌, ◌++◌, if◌then◌else◌, Bytes, codes, same, ℤ,
}
use cross_language_lan_chatr.Prelude.Map.{bytes_eq}
use cross_language_lan_chatr.Json.{Json, array, Items, no_items, item, Members, get}
use cross_language_lan_chatr.Bridge.{to_text}
use cross_language_lan_chatr.Page.{to_bool}

-- The methods that `dispatch` calls, with their arguments in their order.
pub data Call : Type 0 where
  connect_to_server_with_tls_name : Bytes → ℤ → Bytes → Bytes → Bytes → Bytes → Call
  connect_to_server : Bytes → ℤ → Bytes → Bytes → Bytes → Call
  connect_to_local_host : Bytes → Bytes → Bytes → Bytes → Bytes → Bytes → Call
  fetch_mls_key_package : Bytes → Bytes → Bytes → Call
  add_mls_member remove_mls_member : Bytes → Bytes → Bytes → Bytes → Call
  send_attachment_init : Bytes → ℤ → Bytes → Call
  choose_and_upload_attachment : Bytes → Bytes → Call
  send_attachment_chunk : Bytes → ℤ → Bytes → Bytes → Bytes → Call
  resume_attachment send_attachment_commit : Bytes → Bytes → Call
  send_attachment_download : Bytes → ℤ → Bytes → Call
  disconnect_from_server request_users request_rooms refresh : Call
  send_room_message send_private_message open_private_chat : Bytes → Bytes → Call
  search_active_history select_room select_direct_message : Bytes → Call
  copy_text remove_local_message retry_message set_mode : Bytes → Call
  create_room : Bytes → Bool → Call
  send_room_action send_admin_action : Bytes → Bytes → Bytes → Call
  recall_message : Bytes → Bytes → Call
  set_enabled : Bool → Call
  write_connection_event : Bytes → Bytes → Call
  observe_frame_time : Json → Call

-- A host that the discovery has found.
pub record Host : Type 0 where
  pub server_ip : Bytes
  pub server_port : ℤ

-- What the calls return: a refusal with its error text, or what was asked for; and the conversions.
pub record Replies : Type 0 where
  pub refresh_error : Option Bytes
  pub connect_data : Bytes → Host × Option Bytes
  pub persist_certificate : Host → Bytes
  pub persist_error : Bytes
  pub may_recall : Bytes → Bool
  -- `NetworkDiagnostics::enabled` after `setEnabled`.
  pub enabled_after : Bool → Bool
  pub to_int : Option Json → ℤ
  pub to_integer : Option Json → ℤ
  pub from_base64 : Bytes → Bytes

-- What a branch does: a call that is answered at once, a call whose answer comes with a signal, a call
-- with no answer that does not schedule the state either, or one of the branches with a test of its own.
pub data Branch : Type 0 where
  answered awaited handed_on : Call → Branch
  discover report frames : Branch
  connect_host recall choose_mode logging : Branch

abbrev pub field : Bytes → Members → Bytes
field key payload = to_text (get key payload)

abbrev pub items_in : Option Json → Items
items_in (some (array vs)) = vs
items_in _ = no_items

unfoldable pub observe_all : Items → List Call → List Call
observe_all no_items calls = calls
observe_all (item v vs) calls = observe_all vs (observe_frame_time v ∷ calls)

module _ (replies : Replies) where
  abbrev pub BranchEntry : Type 0
  BranchEntry = Bytes × (Members → Bytes → Branch)

  abbrev pub connect_remote : Members → Branch
  connect_remote p = answered (
      if same (field (codes "tlsServerName") p) (codes "localhost")
      then connect_to_server_with_tls_name (field (codes "serverIp") p)
          (replies.to_int (get (codes "serverPort") p)) (field (codes "username") p)
          (field (codes "userCode") p) (field (codes "caFile") p) (field (codes "tlsServerName") p)
      else connect_to_server (field (codes "serverIp") p)
          (replies.to_int (get (codes "serverPort") p)) (field (codes "username") p)
          (field (codes "userCode") p) (field (codes "caFile") p))

  abbrev pub session_entries : List BranchEntry
  session_entries =
      (codes "session.connectRemote", λ p id. connect_remote p)
      ∷ (codes "session.discoverLanHosts", λ p id. discover)
      ∷ (codes "session.connectDiscoveredHost", λ p id. connect_host)
      ∷ (
        codes "session.connectLocalHost",
        λ p id. answered (
            connect_to_local_host (field (codes "serverExe") p) (field (codes "certFile") p)
              (field (codes "keyFile") p) (field (codes "dbFile") p) (field (codes "username") p)
              (field (codes "userCode") p)),
      )
      ∷ []

  abbrev pub mls_entries : List BranchEntry
  mls_entries =
      (
        codes "mls.keyPackage.fetch",
        λ p id.
            awaited (
              fetch_mls_key_package (field (codes "room") p) (field (codes "targetUserCode") p) id),
      )
      ∷ (
        codes "mls.group.add",
        λ p id. awaited (
            add_mls_member (field (codes "room") p) (field (codes "groupId") p)
              (field (codes "targetUserCode") p) id),
      )
      ∷ (
        codes "mls.group.remove",
        λ p id. awaited (
            remove_mls_member (field (codes "room") p) (field (codes "groupId") p)
              (field (codes "targetUserCode") p) id),
      )
      ∷ []

  abbrev pub attachment_entries : List BranchEntry
  attachment_entries =
      (
        codes "attachment.init",
        λ p id. handed_on (
            send_attachment_init (field (codes "room") p)
              (replies.to_integer (get (codes "logicalSize") p)) id),
      )
      ∷ (
        codes "attachment.chooseUpload",
        λ p id. handed_on (choose_and_upload_attachment (field (codes "room") p) id),
      )
      ∷ (
        codes "attachment.chunk",
        λ p id. handed_on (
            send_attachment_chunk (field (codes "uploadId") p)
              (replies.to_integer (get (codes "chunkIndex") p))
              (replies.from_base64 (field (codes "ciphertext") p)) (field (codes "cipherSha256") p)
              id),
      )
      ∷ (
        codes "attachment.resume",
        λ p id. handed_on (resume_attachment (field (codes "uploadId") p) id),
      )
      ∷ (
        codes "attachment.commit",
        λ p id. handed_on (send_attachment_commit (field (codes "uploadId") p) id),
      )
      ∷ (
        codes "attachment.download",
        λ p id. handed_on (
            send_attachment_download (field (codes "attachmentId") p)
              (replies.to_integer (get (codes "chunkIndex") p)) id),
      )
      ∷ []

  abbrev pub chat_entries : List BranchEntry
  chat_entries =
      (codes "session.disconnect", λ p id. answered disconnect_from_server)
      ∷ (
        codes "chat.sendRoom",
        λ p id. answered (send_room_message (field (codes "content") p) (field (codes "room") p)),
      )
      ∷ (
        codes "chat.sendPrivate",
        λ p id.
            answered
              (send_private_message (field (codes "content") p) (field (codes "targetUserCode") p)),
      )
      ∷ (codes "history.search", λ p id. answered (search_active_history (field (codes "query") p)))
      ∷ (codes "conversation.selectRoom", λ p id. answered (select_room (field (codes "room") p)))
      ∷ (
        codes "conversation.selectDirect",
        λ p id. answered (select_direct_message (field (codes "userCode") p)),
      )
      ∷ (
        codes "conversation.openPrivate",
        λ p id.
            answered
              (open_private_chat (field (codes "displayName") p) (field (codes "userCode") p)),
      )
      ∷ (codes "directory.refreshUsers", λ p id. answered request_users)
      ∷ (codes "directory.refreshRooms", λ p id. answered request_rooms)
      ∷ (
        codes "room.create",
        λ p id.
            answered (create_room (field (codes "room") p) (to_bool (get (codes "isPrivate") p))),
      )
      ∷ (
        codes "room.action",
        λ p id. answered (
            send_room_action (field (codes "action") p) (field (codes "room") p)
              (field (codes "targetUserCode") p)),
      )
      ∷ (
        codes "admin.action",
        λ p id. answered (
            send_admin_action (field (codes "action") p) (field (codes "targetUserCode") p)
              (field (codes "messageId") p)),
      )
      ∷ []

  abbrev pub other_entries : List BranchEntry
  other_entries =
      (codes "message.copy", λ p id. answered (copy_text (field (codes "text") p)))
      ∷ (
        codes "message.removeLocal",
        λ p id. answered (remove_local_message (field (codes "messageId") p)),
      )
      ∷ (codes "message.retry", λ p id. answered (retry_message (field (codes "messageId") p)))
      ∷ (codes "message.recall", λ p id. recall)
      ∷ (codes "settings.setPerformanceMode", λ p id. choose_mode)
      ∷ (codes "settings.setConnectionLogging", λ p id. logging)
      ∷ (codes "diagnostics.frontendError", λ p id. report)
      ∷ (codes "performance.reportFrameTimes", λ p id. frames)
      ∷ []

  -- The branches in their order.
  abbrev pub entries : List BranchEntry
  entries = session_entries ++ mls_entries ++ attachment_entries ++ chat_entries ++ other_entries

  unfoldable pub branch_of : List BranchEntry → Bytes → Option (Members → Bytes → Branch)
  branch_of [] type = none
  branch_of ((name, branch) ∷ others) type =
      let rest = branch_of others type in if same name type then some branch else rest
