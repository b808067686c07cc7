-- ===== src/Message/Fields.antt =====
-- How `receive_message_impl` of client-cpp/src/message.cpp reads the members of an object.
use cross_language_lan_chatr.Prelude.{
  ℕ, ◌-◌, ◌%◌, ◌^◌, Bool, true, false, Option, none, some, List, [], ◌∷◌, if◌then◌else◌, ltb, map,
  Bytes, codes, ℤ, pos, negsuc,
}
use cross_language_lan_chatr.Json.{
  Json, boolean, integer, text, array, object, Items, no_items, item, Members, no_members, get,
}
use cross_language_lan_chatr.Message.{
  Library, OnlineUser, RoomInfo, Header, Error, is_admin_error, private_error, has_more_error,
  recalled_error, limit_error, epoch_error, metadata_error, crypto_error, ambiguous_bitmap, Checked,
  fine, refused, ◌>>=◌,
}
use cross_language_lan_chatr.Message.Bitmap.{read_bitmap}

-- A cast of an integer to one of `w` bits.
abbrev pub residue : ℕ → ℤ → ℕ
residue w (pos n) = n % 2 ^ w
residue w (negsuc n) = 2 ^ w - 1 - n % 2 ^ w

abbrev pub signed : ℕ → ℤ → ℤ
signed w i =
    if ltb (residue w i) (2 ^ (w - 1)) then pos (residue w i) else negsuc (2 ^ w - 1 - residue w i)

-- The members of an object; `contains` is false on every other value.
abbrev pub members_of : Json → Members
members_of (object ms) = ms
members_of _ = no_members

-- A string member and where it goes.
abbrev pub Field : Type 0
Field = Bytes × (Header → Bytes → Header)

abbrev pub set_text : Error → (Header → Bytes → Header) → Header → Option Json → Checked Header
set_text e set m none = fine m
set_text e set m (some (text s)) = fine (set m s)
set_text e set m (some _) = refused e

unfoldable pub read_texts : Error → List Field → Members → Header → Checked Header
read_texts e [] ms m = fine m
read_texts e ((key, set) ∷ fields) ms m =
    set_text e set m (get key ms) >>= λ m. read_texts e fields ms m

abbrev pub texts : List Field
texts =
    (codes "username", λ m s. record m { username = s })
    ∷ (codes "protocol_version", λ m s. record m { protocol_version = s })
    ∷ (codes "message_id", λ m s. record m { message_id = s })
    ∷ (codes "command_id", λ m s. record m { command_id = s })
    ∷ (codes "delivery_state", λ m s. record m { delivery_state = s })
    ∷ (codes "user_code", λ m s. record m { user_code = s })
    ∷ (codes "target_user_code", λ m s. record m { target_user_code = s })
    ∷ (codes "room", λ m s. record m { room = s })
    ∷ (codes "content", λ m s. record m { content = s })
    ∷ (codes "group_id", λ m s. record m { group_id = s })
    ∷ (codes "key_package", λ m s. record m { key_package = s })
    ∷ (codes "proposal_id", λ m s. record m { proposal_id = s })
    ∷ (codes "action", λ m s. record m { action = s })
    ∷ (codes "proposal", λ m s. record m { proposal = s })
    ∷ (codes "commit", λ m s. record m { commit = s })
    ∷ (codes "welcome", λ m s. record m { welcome = s })
    ∷ (codes "welcome_digest", λ m s. record m { welcome_digest = s })
    ∷ (codes "attachment_id", λ m s. record m { attachment_id = s })
    ∷ (codes "upload_id", λ m s. record m { upload_id = s })
    ∷ (codes "ciphertext", λ m s. record m { ciphertext = s })
    ∷ (codes "cipher_sha256", λ m s. record m { cipher_sha256 = s })
    ∷ (codes "expires_at", λ m s. record m { expires_at = s })
    ∷ (codes "created_at", λ m s. record m { created_at = s })
    ∷ (codes "before_message_id", λ m s. record m { before_message_id = s })
    ∷ (codes "search_query", λ m s. record m { search_query = s })
    ∷ []

abbrev pub set_flag : Error → (Header → Bool → Header) → Header → Option Json → Checked Header
set_flag e set m none = fine m
set_flag e set m (some (boolean b)) = fine (set m b)
set_flag e set m (some _) = refused e

abbrev pub Flag : Type 0
Flag = Bytes × Error × (Header → Bool → Header)

unfoldable pub read_flags : List Flag → Members → Header → Checked Header
read_flags [] ms m = fine m
read_flags ((key, e, set) ∷ flags) ms m =
    set_flag e set m (get key ms) >>= λ m. read_flags flags ms m

abbrev pub flags : List Flag
flags =
    (codes "is_admin", is_admin_error, λ m b. record m { is_admin = b })
    ∷ (codes "private", private_error, λ m b. record m { is_private = b })
    ∷ (codes "has_more", has_more_error, λ m b. record m { has_more = b })
    ∷ (codes "recalled", recalled_error, λ m b. record m { recalled = b })
    ∷ []

-- `wrap` is the cast that `get` makes.
abbrev pub set_integer :
    Error → (ℤ → ℤ) → (Header → ℤ → Header) → Header → Option Json → Checked Header
set_integer e wrap set m none = fine m
set_integer e wrap set m (some (integer i)) = fine (set m (wrap i))
set_integer e wrap set m (some _) = refused e

-- A member, its error, the width of its type and where it goes.
abbrev pub Number : Type 0
Number = Bytes × Error × ℕ × (Header → ℤ → Header)

unfoldable pub read_integers : List Number → Members → Header → Checked Header
read_integers [] ms m = fine m
read_integers ((key, e, w, set) ∷ numbers) ms m =
    set_integer e (signed w) set m (get key ms) >>= λ m. read_integers numbers ms m

abbrev pub limits : List Number
limits = (codes "limit", limit_error, 32, λ m i. record m { limit = i }) ∷ []

abbrev pub metadata : List Number
metadata =
    (codes "logical_size", metadata_error, 64, λ m i. record m { logical_size = i })
    ∷ (codes "chunk_size", metadata_error, 64, λ m i. record m { chunk_size = i })
    ∷ (codes "chunk_index", metadata_error, 64, λ m i. record m { chunk_index = i })
    ∷ []

unfoldable pub set_epoch : Header → Option Json → Checked Header
set_epoch m none = fine m
set_epoch m (some (integer (pos n))) = fine (record m { epoch = n })
set_epoch m (some _) = refused epoch_error

unfoldable pub set_crypto : Library → Header → Option Json → Checked Header
set_crypto library m none = fine m
set_crypto library m (some (object ms)) = fine (record m { crypto = library.dump (object ms) })
set_crypto library m (some _) = refused crypto_error

abbrev pub is_missing : Option Json → Bool
is_missing none = true
is_missing (some v) = false

-- `received_bitmap`, next to which there may be no `received_indexes`.
unfoldable pub set_bitmap : Bool → Header → Option Json → Checked Header
set_bitmap alone m none = fine m
set_bitmap true m (some (text s)) =
    read_bitmap s >>= λ is. fine (record m { received_indexes = map pos is })
set_bitmap alone m (some _) = refused ambiguous_bitmap

-- The elements of an array: the error of a value that is none, and of one with a bad element.
unfoldable pub read_items {ℓ} : {A : Type ℓ} → Error → (Json → Option A) → Items → Checked (List A)
read_items e read no_items = fine []
read_items e read (item v vs) =
    let rest = read_items e read vs in
    elim (read v) [ none ↦ refused e | some a ↦ rest >>= λ others. fine (a ∷ others) ]

abbrev pub read_array {ℓ} :
    {A : Type ℓ} → Error → Error → (Json → Option A) → Option Json → Checked (List A)
read_array not_array bad read none = fine []
read_array not_array bad read (some (array vs)) = read_items bad read vs
read_array not_array bad read (some _) = refused not_array

abbrev pub text_of : Json → Option Bytes
text_of (text s) = some s
text_of _ = none

abbrev pub int64_of : Json → Option ℤ
int64_of (integer i) = some (signed 64 i)
int64_of _ = none

-- The parts of a member of `user_details` and of `room_details`.
abbrev pub make_user : Option Json → Option Json → Option Json → Option Json → Option OnlineUser
make_user (some (text name)) (some (text code)) (some (text room)) (some (boolean admin)) =
    some (record { username = name; user_code = code; room = room; is_admin = admin })
make_user _ _ _ _ = none

abbrev pub user_of : Json → Option OnlineUser
user_of (object ms) =
    make_user (get (codes "username") ms) (get (codes "user_code") ms) (get (codes "room") ms)
      (get (codes "is_admin") ms)
user_of _ = none

abbrev pub make_room : Option Json → Option Json → Option Json → Option Json → Option RoomInfo
make_room (some (text name)) (some (boolean private)) (some (boolean manage)) none =
    some (record { name = name; owner_code = []; is_private = private; can_manage = manage })
make_room (some (text name)) (some (boolean private)) (some (boolean manage)) (some (text owner)) =
    some (record { name = name; owner_code = owner; is_private = private; can_manage = manage })
make_room _ _ _ _ = none

abbrev pub room_of : Json → Option RoomInfo
room_of (object ms) =
    make_room (get (codes "name") ms) (get (codes "private") ms) (get (codes "can_manage") ms)
      (get (codes "owner_code") ms)
room_of _ = none
