-- ===== src/Message.antt =====
-- The messages of the chat: client-cpp/src/message.cpp and client-cpp/include/message.hpp. The JSON
-- library's `parse`, which throws on a text that it refuses, and `dump` are the parameter `Library`.
-- An error is a constructor for its text.
pub mod Base64
pub mod Bitmap
pub mod Serialize
pub mod Receive
pub mod Fields
pub mod RoundTrip
mod Tests
use cross_language_lan_chatr.Prelude.{
  ℕ, Bool, true, false, Option, none, some, List, [], ◌∷◌, ◌++◌, Bytes, ℤ, pos,
}
use cross_language_lan_chatr.Json.{Json, Members}
use cross_language_lan_chatr.Protocol as Frames

pub record Library : Type 0 where
  pub parse : Bytes → Option Json
  pub dump : Json → Bytes

pub record OnlineUser : Type 0 where
  pub username : Bytes
  pub user_code : Bytes
  pub room : Bytes
  pub is_admin : Bool

pub record RoomInfo : Type 0 where
  pub name : Bytes
  pub owner_code : Bytes
  pub is_private : Bool
  pub can_manage : Bool

-- All members of `Message` but `messages`.
pub record Header : Type 0 where
  pub type : Bytes
  pub username : Bytes
  pub user_code : Bytes
  pub content : Bytes
  pub users : List Bytes
  pub target_user_code : Bytes
  pub room : Bytes
  pub rooms : List Bytes
  pub user_details : List OnlineUser
  pub room_details : List RoomInfo
  pub password : Bytes
  pub message_id : Bytes
  pub command_id : Bytes
  pub delivery_state : Bytes
  pub created_at : Bytes
  pub before_message_id : Bytes
  pub search_query : Bytes
  pub crypto : Bytes
  pub limit : ℤ
  pub has_more : Bool
  pub recalled : Bool
  pub is_admin : Bool
  pub is_private : Bool
  pub protocol_version : Bytes
  pub group_id : Bytes
  pub epoch : ℕ
  pub key_package : Bytes
  pub proposal_id : Bytes
  pub action : Bytes
  pub proposal : Bytes
  pub commit : Bytes
  pub welcome : Bytes
  pub welcome_digest : Bytes
  pub attachment_id : Bytes
  pub upload_id : Bytes
  pub logical_size : ℤ
  pub chunk_size : ℤ
  pub chunk_index : ℤ
  pub ciphertext : Bytes
  pub cipher_sha256 : Bytes
  pub expires_at : Bytes
  pub received_indexes : List ℤ

mutual
  pub data Message : Type 0 where
    message : Header → Messages → Message

  pub data Messages : Type 0 where
    no_messages : Messages
    more : Message → Messages → Messages

-- `Message{}`.
abbrev pub empty_header : Header
empty_header = record {
  type = [];
  username = [];
  user_code = [];
  content = [];
  users = [];
  target_user_code = [];
  room = [];
  rooms = [];
  user_details = [];
  room_details = [];
  password = [];
  message_id = [];
  command_id = [];
  delivery_state = [];
  created_at = [];
  before_message_id = [];
  search_query = [];
  crypto = [];
  limit = pos 0;
  has_more = false;
  recalled = false;
  is_admin = false;
  is_private = false;
  protocol_version = [];
  group_id = [];
  epoch = 0;
  key_package = [];
  proposal_id = [];
  action = [];
  proposal = [];
  commit = [];
  welcome = [];
  welcome_digest = [];
  attachment_id = [];
  upload_id = [];
  logical_size = pos 0;
  chunk_size = pos 0;
  chunk_index = pos 0;
  ciphertext = [];
  cipher_sha256 = [];
  expires_at = [];
  received_indexes = [];
}

abbrev pub empty_message : Message
empty_message = message empty_header no_messages

abbrev pub header : Message → Header
header (message h ms) = h

pub data Error : Type 0 where
  no_string_type wrong_type is_admin_error private_error has_more_error recalled_error : Error
  limit_error epoch_error metadata_error crypto_error : Error
  ambiguous_bitmap bitmap_length bitmap_digit bitmap_range : Error
  indexes_array indexes_value users_array users_value rooms_array rooms_value : Error
  user_details_array user_details_member room_details_array room_details_room : Error
  messages_array messages_value messages_field nested_private nested_recalled : Error
  key_package_error commit_error proposal_error welcome_error parse_failed : Error
  frame_error : Option Frames.Error → Error

-- The result of a function that sets an error and returns false.
pub data Checked {ℓ} (A : Type ℓ) : Type ℓ where
  fine : A → Checked A
  refused : Error → Checked A

infixl 5 ◌>>=◌ ◌>>◌
abbrev pub ◌>>=◌ {ℓ κ} : {A : Type ℓ} {B : Type κ} → Checked A → (A → Checked B) → Checked B
fine a >>= f = f a
refused e >>= f = refused e

abbrev pub ◌>>◌ {ℓ} : {B : Type ℓ} → Checked (Unit {0}) → Checked B → Checked B
m >> k = m >>= λ _. k
