-- ===== src/Json.antt =====
-- JSON values as the sources read and write them: `nlohmann::json` of client-cpp/src/message.cpp and
-- `QJsonValue` of client-cpp/gui/src/bridge_protocol.cpp. Both libraries keep the members of an
-- object in the order of their keys. A number is an integer or the 64 bits of a `double`.
pub mod Build
use cross_language_lan_chatr.Prelude.{
  ℕ, Bool, true, false, not, ◌&&◌, ◌||◌, Option, none, some, List, [], ◌∷◌, if◌then◌else◌, ltb,
  ◌==◌, Bytes, same, ℤ, pos, leb_ℤ,
}

mutual
  pub data Json : Type 0 where
    null : Json
    boolean : Bool → Json
    integer : ℤ → Json
    floating : ℕ → Json
    text : Bytes → Json
    array : Items → Json
    object : Members → Json

  pub data Items : Type 0 where
    no_items : Items
    item : Json → Items → Items

  pub data Members : Type 0 where
    no_members : Members
    member : Bytes → Json → Members → Members

unfoldable pub get : Bytes → Members → Option Json
get key no_members = none
get key (member k v ms) = let rest = get key ms in if same k key then some v else rest

-- `std::less` on keys.
unfoldable pub less : Bytes → Bytes → Bool
less [] [] = false
less [] (y ∷ ys) = true
less (x ∷ xs) [] = false
less (x ∷ xs) (y ∷ ys) = ltb x y || (x == y && less xs ys)

-- `object[key] = value`.
unfoldable pub set_key : Bytes → Json → Members → Members
set_key key v no_members = member key v no_members
set_key key v (member k w ms) =
    let rest = set_key key v ms in
    if same k key
    then member key v ms
    else if less key k
    then member key v (member k w ms)
    else member k w rest

abbrev pub list_of : Items → List Json
list_of no_items = []
list_of (item v vs) = v ∷ list_of vs

abbrev pub items_of : List Json → Items
items_of [] = no_items
items_of (v ∷ vs) = item v (items_of vs)

-- A field that may be left out, and the object that the fields with a value make.
abbrev pub Entry : Type 0
Entry = Bytes × Option Json

abbrev pub set_entry : Entry → Members → Members
set_entry (key, none) ms = ms
set_entry (key, some v) ms = set_key key v ms

-- The assignments in their order.
unfoldable pub set_all : List Entry → Members → Members
set_all [] ms = ms
set_all (entry ∷ entries) ms = set_all entries (set_entry entry ms)
