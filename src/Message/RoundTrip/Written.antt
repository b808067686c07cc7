-- ===== src/Message/RoundTrip/Written.antt =====
-- What the object of a message holds, and the message after each group of its members has been read
-- (client-cpp/src/message.cpp).
use cross_language_lan_chatr.Prelude.{
  ◌≡◌, ap, ◌∙◌, false, Option, none, some, if◌then◌else◌, ltb_ℤ, is_empty, map, Bytes, pos,
}
use cross_language_lan_chatr.Json.{Json, text, Members, no_members, get, set_all}
use cross_language_lan_chatr.Json.Build.{get-set_all_new, pick}
use cross_language_lan_chatr.Message.{Header, empty_header, Checked, fine, ◌>>=◌}
use cross_language_lan_chatr.Message.Serialize.{entries}
use cross_language_lan_chatr.Message.Fields.{signed}

unfoldable pub text_option : Bytes → Option Json
text_option value = if is_empty value then none else some (text value)

unfoldable pub built : Header → Members
built m = set_all (entries m none none) no_members

pub got : (key : Bytes) (m : Header) → get key (built m) ≡ pick key (entries m none none)
unfolding built
got key m = get-set_all_new key (entries m none none)

-- What the string members make of an empty message with a type.
abbrev pub with_texts : Header → Header
with_texts m = record empty_header {
  type = m.type;
  username = m.username;
  protocol_version = m.protocol_version;
  message_id = m.message_id;
  command_id = m.command_id;
  delivery_state = m.delivery_state;
  user_code = m.user_code;
  target_user_code = m.target_user_code;
  room = m.room;
  content = m.content;
  group_id = m.group_id;
  key_package = m.key_package;
  proposal_id = m.proposal_id;
  action = m.action;
  proposal = m.proposal;
  commit = m.commit;
  welcome = m.welcome;
  welcome_digest = m.welcome_digest;
  attachment_id = m.attachment_id;
  upload_id = m.upload_id;
  ciphertext = m.ciphertext;
  cipher_sha256 = m.cipher_sha256;
  expires_at = m.expires_at;
  created_at = m.created_at;
  before_message_id = m.before_message_id;
  search_query = m.search_query;
}

pub bind-step {ℓ κ} :
    {A : Type ℓ} {B : Type κ} (x : Checked A) (f : A → Checked B) (a : A) (r : Checked B)
    → x ≡ fine a
    → f a ≡ r
    → (x >>= f) ≡ r
bind-step x f a r e h = ap (λ y. y >>= f) e ∙ h

abbrev pub with_flags : Header → Header
with_flags m = record (with_texts m) {
  is_admin = m.is_admin;
  is_private = m.is_private;
  has_more = m.has_more;
  recalled = m.recalled;
}

abbrev pub with_limit : Header → Header
with_limit m = record (with_flags m) { limit = m.limit }

abbrev pub with_epoch : Header → Header
with_epoch m = record (with_limit m) { epoch = m.epoch }

abbrev pub with_numbers : Header → Header
with_numbers m = record (with_epoch m) {
  logical_size = m.logical_size;
  chunk_size = m.chunk_size;
  chunk_index = m.chunk_index;
}

-- The numbers of a message fit in their types, and the limit is not negative.
pub record Fits (m : Header) : Type 0 where
  pub limit : signed 32 m.limit ≡ m.limit
  pub limit_nonneg : ltb_ℤ (pos 0) m.limit ≡ false → m.limit ≡ pos 0
  pub logical_size : signed 64 m.logical_size ≡ m.logical_size
  pub chunk_size : signed 64 m.chunk_size ≡ m.chunk_size
  pub chunk_index : signed 64 m.chunk_index ≡ m.chunk_index
  pub indexes : map (signed 64) m.received_indexes ≡ m.received_indexes

abbrev pub with_lists : Header → Header
with_lists m = record (with_numbers m) {
  received_indexes = m.received_indexes;
  users = m.users;
  rooms = m.rooms;
  user_details = m.user_details;
  room_details = m.room_details;
}
