-- ===== src/Message/Serialize.antt =====
-- `serialize` of client-cpp/src/message.cpp.
use cross_language_lan_chatr.Prelude.{
  Bool, true, false, not, ◌||◌, Option, none, some, List, [], ◌∷◌, if◌then◌else◌, ◌==◌, is_empty,
  map, Bytes, codes, same, ℤ, pos, negsuc, ltb_ℤ, ◌>>=◌,
}
use cross_language_lan_chatr.Json.{
  Json, boolean, integer, text, array, object, Items, no_items, item, no_members, items_of, Entry,
  set_all,
}
use cross_language_lan_chatr.Message.{
  Library, OnlineUser, RoomInfo, Header, Message, message, Messages, no_messages, more,
}

abbrev pub text_entry : Bytes → Bytes → Entry
text_entry key value = (key, if is_empty value then none else some (text value))

abbrev pub flag_entry : Bytes → Bool → Entry
flag_entry key value = (key, if value then some (boolean true) else none)

abbrev pub is_zero : ℤ → Bool
is_zero (pos n) = n == 0
is_zero (negsuc n) = false

abbrev pub number_entry : Bytes → ℤ → Entry
number_entry key value = (key, if is_zero value then none else some (integer value))

abbrev pub list_value : List Json → Option Json
list_value [] = none
list_value (v ∷ vs) = some (array (items_of (v ∷ vs)))

abbrev pub list_entry : Bytes → List Json → Entry
list_entry key vs = (key, list_value vs)

abbrev pub user_value : OnlineUser → Json
user_value user = object (
    set_all
      ((codes "username", some (text user.username))
        ∷ (codes "user_code", some (text user.user_code))
        ∷ (codes "room", some (text user.room))
        ∷ (codes "is_admin", some (boolean user.is_admin))
        ∷ [])
      no_members)

abbrev pub room_value : RoomInfo → Json
room_value room = object (
    set_all
      ((codes "name", some (text room.name))
        ∷ (codes "private", some (boolean room.is_private))
        ∷ (codes "can_manage", some (boolean room.can_manage))
        ∷ text_entry (codes "owner_code") room.owner_code
        ∷ [])
      no_members)

abbrev pub chunk_type : Bytes
chunk_type = codes "attachment.chunk"

-- A message that is nested has been serialized to `nested`, its cryptography parsed to `crypto`.
abbrev pub entries : Header → Option Json → Option Json → List Entry
entries m crypto nested =
    (codes "type", some (text m.type))
    ∷ text_entry (codes "protocol_version") m.protocol_version
    ∷ text_entry (codes "message_id") m.message_id
    ∷ text_entry (codes "command_id") m.command_id
    ∷ text_entry (codes "delivery_state") m.delivery_state
    ∷ text_entry (codes "created_at") m.created_at
    ∷ text_entry (codes "before_message_id") m.before_message_id
    ∷ text_entry (codes "search_query") m.search_query
    ∷ (codes "crypto", crypto)
    ∷ (codes "limit", if ltb_ℤ (pos 0) m.limit then some (integer m.limit) else none)
    ∷ flag_entry (codes "has_more") m.has_more
    ∷ flag_entry (codes "recalled") m.recalled
    ∷ text_entry (codes "username") m.username
    ∷ text_entry (codes "user_code") m.user_code
    ∷ text_entry (codes "target_user_code") m.target_user_code
    ∷ text_entry (codes "room") m.room
    ∷ text_entry (codes "content") m.content
    ∷ list_entry (codes "users") (map text m.users)
    ∷ list_entry (codes "rooms") (map text m.rooms)
    ∷ list_entry (codes "user_details") (map user_value m.user_details)
    ∷ list_entry (codes "room_details") (map room_value m.room_details)
    ∷ flag_entry (codes "is_admin") m.is_admin
    ∷ flag_entry (codes "private") m.is_private
    ∷ text_entry (codes "group_id") m.group_id
    ∷ number_entry (codes "epoch") (pos m.epoch)
    ∷ text_entry (codes "key_package") m.key_package
    ∷ text_entry (codes "proposal_id") m.proposal_id
    ∷ text_entry (codes "action") m.action
    ∷ text_entry (codes "proposal") m.proposal
    ∷ text_entry (codes "commit") m.commit
    ∷ text_entry (codes "welcome") m.welcome
    ∷ text_entry (codes "welcome_digest") m.welcome_digest
    ∷ text_entry (codes "attachment_id") m.attachment_id
    ∷ text_entry (codes "upload_id") m.upload_id
    ∷ number_entry (codes "logical_size") m.logical_size
    ∷ number_entry (codes "chunk_size") m.chunk_size
    ∷ (
      codes "chunk_index",
      if not (is_zero m.chunk_index) || same m.type chunk_type
          then some (integer m.chunk_index)
          else none,
    )
    ∷ text_entry (codes "ciphertext") m.ciphertext
    ∷ text_entry (codes "cipher_sha256") m.cipher_sha256
    ∷ text_entry (codes "expires_at") m.expires_at
    ∷ list_entry (codes "received_indexes") (map integer m.received_indexes)
    ∷ (codes "messages", nested)
    ∷ []

module _ (library : Library) where
  -- `none`: `parse` throws.
  abbrev pub crypto_value : Bytes → Option (Option Json)
  crypto_value [] = some none
  crypto_value (c ∷ cs) = library.parse (c ∷ cs) >>= λ v. some (some v)

  abbrev pub nested_value : Items → Option Json
  nested_value no_items = none
  nested_value (item v vs) = some (array (item v vs))

  unfoldable mutual
    pub serialize : Message → Option Json
    serialize (message m nested) = do
      crypto ← crypto_value m.crypto
      values ← serialize_all nested
      some (object (set_all (entries m crypto (nested_value values)) no_members))

    pub serialize_all : Messages → Option Items
    serialize_all no_messages = some no_items
    serialize_all (more m ms) = do
      value ← serialize m
      values ← serialize_all ms
      some (item value values)
