-- ===== src/Message/RoundTrip/Lists.antt =====
-- The lists of a message are read as they were written (client-cpp/src/message.cpp).
use cross_language_lan_chatr.Prelude.{
  ◌≡◌, refl, ap, ◌∙◌, Bool, Option, some, List, [], ◌∷◌, map, Bytes, codes, same,
}
use cross_language_lan_chatr.Json.{Json, integer, text, items_of, get, set_all, set_key, less}
use cross_language_lan_chatr.Message.{
  Library, OnlineUser, RoomInfo, Header, Error, indexes_array, indexes_value, users_array,
  users_value, rooms_array, rooms_value, user_details_array, user_details_member,
  room_details_array, room_details_room, fine,
}
use cross_language_lan_chatr.Message.Serialize.{user_value, room_value, list_value}
use cross_language_lan_chatr.Message.Receive.{read_lists}
use cross_language_lan_chatr.Message.Fields.{
  read_items, read_array, text_of, int64_of, user_of, room_of, signed,
}
use cross_language_lan_chatr.Message.RoundTrip.Written.{
  built, got, with_numbers, with_lists, Fits, bind-step,
}

read_items-map {ℓ} :
    {A : Type ℓ} (e : Error) (read : Json → Option A) (put : A → Json) (change : A → A)
    → ((a : A) → read (put a) ≡ some (change a))
    → (xs : List A) → read_items e read (items_of (map put xs)) ≡ fine (map change xs)
unfolding read_items
read_items-map e read put change h [] = refl
read_items-map e read put change h (x ∷ xs) = rw (h x, read_items-map e read put change h xs) refl

read_array-list {ℓ} :
    {A : Type ℓ} (not_array bad : Error) (read : Json → Option A) (put : A → Json) (change : A → A)
    → ((a : A) → read (put a) ≡ some (change a))
    → (xs : List A) (o : Option Json) → o ≡ list_value (map put xs)
    → read_array not_array bad read o ≡ fine (map change xs)
unfolding read_items
read_array-list not_array bad read put change h [] o e = ap (read_array not_array bad read) e
read_array-list not_array bad read put change h (x ∷ xs) o e =
    ap (read_array not_array bad read) e ∙ read_items-map bad read put change h (x ∷ xs)

map_id {ℓ} : {A : Type ℓ} (xs : List A) → map (λ x. x) xs ≡ xs
map_id [] = refl
map_id (x ∷ xs) = ap (◌∷◌ x) (map_id xs)

user-read : (u : OnlineUser) → user_of (user_value u) ≡ some u
unfolding get set_all set_key same less
user-read u = refl

room_parts-read :
    (name owner : Bytes) (private manage : Bool)
    → room_of (
        room_value
          (record { name = name; owner_code = owner; is_private = private; can_manage = manage }))
      ≡ some (record { name = name; owner_code = owner; is_private = private; can_manage = manage })
unfolding get set_all set_key same less
room_parts-read name [] private manage = refl
room_parts-read name (c ∷ cs) private manage = refl

room-read : (r : RoomInfo) → room_of (room_value r) ≡ some r
room-read r = room_parts-read r.name r.owner_code r.is_private r.can_manage

pub lists-read :
    (library : Library) (m : Header)
    → Fits m
    → read_lists library (built m) (with_numbers m) ≡ fine (with_lists m)
unfolding read_lists same
lists-read library m f =
    bind-step _ _ _ _
      (read_array-list indexes_array indexes_value int64_of integer (signed 64) (λ i. refl)
          m.received_indexes _ (got (codes "received_indexes") m)
        ∙ ap fine f.indexes)
      (bind-step _ _ _ _
        (read_array-list users_array users_value text_of text (λ s. s) (λ s. refl) m.users _
            (got (codes "users") m)
          ∙ ap fine (map_id m.users))
        (bind-step _ _ _ _
          (read_array-list rooms_array rooms_value text_of text (λ s. s) (λ s. refl) m.rooms _
              (got (codes "rooms") m)
            ∙ ap fine (map_id m.rooms))
          (bind-step _ _ _ _
            (read_array-list user_details_array user_details_member user_of user_value (λ u. u)
                user-read m.user_details _ (got (codes "user_details") m)
              ∙ ap fine (map_id m.user_details))
            (bind-step _ _ _ _
              (read_array-list room_details_array room_details_room room_of room_value (λ r. r)
                  room-read m.room_details _ (got (codes "room_details") m)
                ∙ ap fine (map_id m.room_details))
              refl))))
