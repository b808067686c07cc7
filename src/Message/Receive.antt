-- ===== src/Message/Receive.antt =====
-- `receive_message_impl`, `receive_message` and `send_message` of client-cpp/src/message.cpp.
use cross_language_lan_chatr.Prelude.{
  Bool, not, ◌&&◌, Option, none, some, List, [], ◌∷◌, ◌++◌, if◌then◌else◌, is_empty, Bytes, codes,
  same,
}
use cross_language_lan_chatr.Json.{Json, text, array, object, Items, no_items, item, Members, get}
use cross_language_lan_chatr.Protocol.{Channel, Errors, World, send_frame, recv_frame}
use cross_language_lan_chatr.Message.{
  Library, Header, empty_header, Message, message, Messages, no_messages, more, Error,
  no_string_type, wrong_type, indexes_array, indexes_value, users_array, users_value, rooms_array,
  rooms_value, user_details_array, user_details_member, room_details_array, room_details_room,
  messages_array, messages_value, messages_field, nested_private, nested_recalled,
  key_package_error, commit_error, proposal_error, welcome_error, parse_failed, frame_error,
  Checked, fine, refused, ◌>>=◌, ◌>>◌,
}
use cross_language_lan_chatr.Message.Base64.{is_base64}
use cross_language_lan_chatr.Message.Serialize.{serialize}
use cross_language_lan_chatr.Message.Fields.{
  members_of, Field, read_texts, texts, set_flag, read_flags, flags, read_integers, limits,
  metadata, set_epoch, set_crypto, is_missing, set_bitmap, read_array, text_of, int64_of, user_of,
  room_of,
}

abbrev pub nested_texts : List Field
nested_texts =
    (codes "type", λ m s. record m { type = s })
    ∷ (codes "message_id", λ m s. record m { message_id = s })
    ∷ (codes "delivery_state", λ m s. record m { delivery_state = s })
    ∷ (codes "username", λ m s. record m { username = s })
    ∷ (codes "user_code", λ m s. record m { user_code = s })
    ∷ (codes "target_user_code", λ m s. record m { target_user_code = s })
    ∷ (codes "room", λ m s. record m { room = s })
    ∷ (codes "content", λ m s. record m { content = s })
    ∷ (codes "created_at", λ m s. record m { created_at = s })
    ∷ []

unfoldable pub read_nested : Json → Checked Message
read_nested (object ms) = do
  m ← read_texts messages_field nested_texts ms empty_header
  m ← set_flag nested_private (λ m b. record m { is_private = b }) m (get (codes "private") ms)
  m ← set_flag nested_recalled (λ m b. record m { recalled = b }) m (get (codes "recalled") ms)
  fine (message m no_messages)
read_nested _ = refused messages_value

unfoldable pub read_messages : Items → Checked Messages
read_messages no_items = fine no_messages
read_messages (item v vs) = do m ← read_nested v; ms ← read_messages vs; fine (more m ms)

abbrev pub messages_of : Option Json → Checked Messages
messages_of none = fine no_messages
messages_of (some (array vs)) = read_messages vs
messages_of (some _) = refused messages_array

-- The text of a message type is base64, if there is one.
abbrev pub check_base64 : Error → Bytes → Header → Bytes → Checked (Unit {0})
check_base64 e type m value =
    if same m.type type && not (is_empty value) && not (is_base64 value) then refused e else fine tt

unfoldable pub check_mls : Header → Checked (Unit {0})
check_mls m = do
  check_base64 key_package_error (codes "mls.key_package.publish") m m.key_package
  check_base64 key_package_error (codes "mls.key_package.fetch") m m.key_package
  check_base64 commit_error (codes "mls.group.commit") m m.commit
  check_base64 proposal_error (codes "mls.group.proposal") m m.proposal
  check_base64 welcome_error (codes "mls.group.welcome") m m.welcome

abbrev pub type_of : Option Json → Checked Bytes
type_of (some (text s)) = fine s
type_of _ = refused no_string_type

module _ (library : Library) where
  -- The flags, the numbers and the bitmap, in the order in which they are read.
  unfoldable pub read_numbers : Members → Header → Checked Header
  read_numbers ms m = do
    m ← read_flags flags ms m
    m ← read_integers limits ms m
    m ← set_epoch m (get (codes "epoch") ms)
    m ← read_integers metadata ms m
    m ← set_crypto library m (get (codes "crypto") ms)
    set_bitmap (is_missing (get (codes "received_indexes") ms)) m (get (codes "received_bitmap") ms)

  unfoldable pub read_lists : Members → Header → Checked Header
  read_lists ms m = do
    indexes ← read_array indexes_array indexes_value int64_of (get (codes "received_indexes") ms)
    users ← read_array users_array users_value text_of (get (codes "users") ms)
    rooms ← read_array rooms_array rooms_value text_of (get (codes "rooms") ms)
    user_details ←
        read_array user_details_array user_details_member user_of (get (codes "user_details") ms)
    room_details ←
        read_array room_details_array room_details_room room_of (get (codes "room_details") ms)
    fine (record m {
      received_indexes = m.received_indexes ++ indexes;
      users = users;
      rooms = rooms;
      user_details = user_details;
      room_details = room_details;
    })

  unfoldable pub read_object : Members → Checked Message
  read_object ms = do
    type ← type_of (get (codes "type") ms)
    m ← read_texts wrong_type texts ms (record empty_header { type = type })
    m ← read_numbers ms m
    m ← read_lists ms m
    nested ← messages_of (get (codes "messages") ms)
    check_mls m
    fine (message m nested)

  abbrev pub read_parsed : Option Json → Checked Message
  read_parsed none = refused parse_failed
  read_parsed (some v) = read_object (members_of v)

  unfoldable pub read_payload : Bytes → Checked Message
  read_payload payload = read_parsed (library.parse payload)

  module _ (c : Channel) (e : Errors c.Socket) where
    -- What `recv_frame` has given.
    abbrev pub on_frame :
        Option (Option Bytes × World c.Socket) → Option (Checked Message × World c.Socket)
    on_frame none = none
    on_frame (some (none, w)) = some (refused (frame_error w.last_error), w)
    on_frame (some (some payload, w)) = some (read_payload payload, w)

    unfoldable pub receive_message : World c.Socket → Option (Checked Message × World c.Socket)
    receive_message w = on_frame (recv_frame c e w)

    -- `none` outside: an exception of `parse` in `serialize`.
    unfoldable pub send_message : Message → World c.Socket → Option (Option (Bool × World c.Socket))
    send_message m w = elim (serialize library m) [
      | none ↦ none
      | some value ↦ some (send_frame c e (library.dump value) w)
    ]
