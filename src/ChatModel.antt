-- ===== src/ChatModel.antt =====
-- The list model behind the views: client-cpp/gui/src/chat_model.hpp and .cpp. `QVariant` is the
-- parameter `Variant`, a `QVariantMap` an association list. The signals to the views, which do not
-- change the model, are left out, and `-1` as a result of `findRow` is `none`.
pub mod Bounds
pub mod Calls
mod Tests
use cross_language_lan_chatr.Prelude.{
  ℕ, zero, suc, ◌+◌, ◌-◌, min, Bool, true, false, not, ◌&&◌, ◌||◌, Option, none, some, List, [],
  ◌∷◌, ◌++◌, if◌then◌else◌, ltb, leb, ◌==◌, length, is_empty, take, drop, Bytes, codes, same, ℤ,
  pos, negsuc,
}
use cross_language_lan_chatr.Prelude.Map.{lookup, insert, bytes_eq}

-- What the model asks of `QVariant`.
pub record Variant : Type 1 where
  pub Value : Type 0
  pub invalid : Value
  pub equal : Value → Value → Bool
  pub to_text : Value → Bytes
  pub of_text : Bytes → Value

abbrev pub max_rows_per_model : ℕ
max_rows_per_model = 1000

-- `Qt::DisplayRole` and `Qt::UserRole`.
abbrev pub display_role : ℕ
display_role = 0

abbrev pub user_role : ℕ
user_role = 256

abbrev pub message_id : Bytes
message_id = codes "messageId"

module _ {ℓ} {A : Type ℓ} where
  unfoldable pub nth : ℕ → List A → Option A
  nth i [] = none
  nth zero (x ∷ xs) = some x
  nth (suc i) (x ∷ xs) = nth i xs

  unfoldable pub modify : ℕ → (A → A) → List A → List A
  modify i f [] = []
  modify zero f (x ∷ xs) = f x ∷ xs
  modify (suc i) f (x ∷ xs) = x ∷ modify i f xs

  unfoldable pub remove_at : ℕ → List A → List A
  remove_at i [] = []
  remove_at zero (x ∷ xs) = xs
  remove_at (suc i) (x ∷ xs) = x ∷ remove_at i xs

  -- `mid(size - n)` of a list of more than `n`: its last `n` elements.
  abbrev pub last : ℕ → List A → List A
  last n xs = if ltb n (length xs) then drop (length xs - n) xs else xs

module _ (variant : Variant) where
  open variant use {Value, invalid, equal, to_text, of_text}

  abbrev pub Row : Type 0
  Row = List (Bytes × Value)

  abbrev pub value : Bytes → Row → Value
  value key row = elim (lookup key row) [ none ↦ invalid | some v ↦ v ]

  -- `QVariantMap::insert` of a whole map.
  unfoldable pub insert_all : Row → Row → Row
  insert_all [] row = row
  insert_all ((key, v) ∷ values) row = insert_all values (insert key v row)

  pub record Model : Type 0 where
    pub roles : List (ℕ × Bytes)
    pub rows : List Row

  number_roles : ℕ → List Bytes → List (ℕ × Bytes)
  number_roles role [] = []
  number_roles role (name ∷ names) = (role, name) ∷ number_roles (role + 1) names

  unfoldable pub make_model : List Bytes → Model
  unfolding number_roles
  make_model names = record { roles = number_roles (user_role + 1) names; rows = [] }

  abbrev pub role_names : Model → List (ℕ × Bytes)
  role_names m = m.roles

  abbrev pub row_count : Model → ℕ
  row_count m = length m.rows

  role_name : ℕ → List (ℕ × Bytes) → Bytes
  role_name role [] = []
  role_name role ((r, name) ∷ roles) = if r == role then name else role_name role roles

  row_value : Bytes → Option Row → Value
  row_value key none = invalid
  row_value key (some row) = value key row

  -- `row` of a valid index.
  unfoldable pub data_at : Model → ℕ → ℕ → Value
  unfolding role_name row_value
  data_at m row role =
      if is_empty (role_name role m.roles)
      then invalid
      else row_value (role_name role m.roles) (nth row m.rows)

  -- The roles of a model have different names.
  unfoldable pub find_role : Bytes → List (ℕ × Bytes) → ℕ
  find_role name [] = display_role
  find_role name ((r, n) ∷ roles) = if same n name then r else find_role name roles

  abbrev pub role_for_name : Model → Bytes → ℕ
  role_for_name m name = find_role name m.roles

  unfoldable pub find_row : List Row → Bytes → Value → Option ℕ
  find_row [] key v = none
  find_row (row ∷ rows) key v =
      let rest = find_row rows key v in
      if equal (value key row) v then some 0 else elim rest [ none ↦ none | some i ↦ some (i + 1) ]

  unfoldable pub value_at : Model → ℤ → Bytes → Value
  unfolding row_value
  value_at m (pos i) key = row_value key (nth i m.rows)
  value_at m (negsuc i) key = invalid

  -- Neither a row out of range nor an empty map changes anything.
  unfoldable pub update_row : Model → ℤ → Row → Model
  update_row m (pos i) values = record m { rows = modify i (insert_all values) m.rows }
  update_row m (negsuc i) values = m

  -- The rows of the model, the rows to come and their places by message id.
  abbrev pub Merging : Type 0
  Merging = List Row × List Row × List (Bytes × ℕ)

  abbrev pub merge_incoming : Bytes → Row → Merging → Option ℕ → Merging
  merge_incoming id row (rows, unique, places) (some i) =
      (rows, modify i (insert_all row) unique, places)
  merge_incoming id row (rows, unique, places) none =
      (rows, unique ++ row ∷ [], insert id (length unique) places)

  abbrev pub merge_found : Bytes → Row → Merging → Option ℕ → Merging
  merge_found id row (rows, unique, places) (some i) =
      (modify i (insert_all row) rows, unique, places)
  merge_found id row (rows, unique, places) none =
      merge_incoming id row (rows, unique, places) (lookup id places)

  abbrev pub merge_row : Row → Merging → Merging
  merge_row row (rows, unique, places) =
      let id = to_text (value message_id row) in
      if is_empty id
      then (rows, unique ++ row ∷ [], places)
      else merge_found id row (rows, unique, places) (find_row rows message_id (of_text id))

  unfoldable pub merge_rows : List Row → Merging → Merging
  merge_rows [] s = s
  merge_rows (row ∷ incoming) s = merge_rows incoming (merge_row row s)

  -- The rows of the model and the ones to append, behind the search for known message ids.
  unfoldable pub merged : Model → List Row → List Row × List Row
  merged m incoming =
      if not (role_for_name m message_id == display_role)
      then (let (rows, unique, places) = merge_rows incoming (m.rows, [], []) in (rows, unique))
      else (m.rows, incoming)

  abbrev pub overflow : List Row → List Row → ℕ
  overflow rows incoming = length rows + length incoming - max_rows_per_model

  abbrev pub append_trimmed : List Row → List Row → List Row
  append_trimmed rows incoming =
      if leb (length rows) (overflow rows incoming) && not (is_empty rows)
      then incoming
      else drop (overflow rows incoming) rows ++ incoming

  abbrev pub append_merged : List Row × List Row → List Row
  append_merged (rows, incoming) =
      if is_empty incoming then rows else append_trimmed rows (last max_rows_per_model incoming)

  unfoldable pub append_rows : Model → List Row → Model
  append_rows m incoming =
      if is_empty incoming then m else record m { rows = append_merged (merged m incoming) }

  abbrev pub append : Model → Row → Model
  append m row = append_rows m (row ∷ [])

  abbrev pub prepend_trimmed : List Row → List Row → List Row
  prepend_trimmed rows incoming =
      if leb (length rows) (overflow rows incoming) && not (is_empty rows)
      then incoming
      else incoming ++ take (length rows - overflow rows incoming) rows

  unfoldable pub prepend_rows : Model → List Row → Model
  prepend_rows m incoming =
      if is_empty incoming
      then m
      else record m { rows = prepend_trimmed m.rows (last max_rows_per_model incoming) }

  abbrev pub maps_to : Row → Bytes → Value → Bool
  maps_to row key v = elim (lookup key row) [ none ↦ false | some w ↦ equal w v ]

  unfoldable pub all_in : Row → Row → Bool
  all_in [] row = true
  all_in ((key, v) ∷ values) row = maps_to row key v && all_in values row

  -- `operator==` of two lists of maps.
  unfoldable pub same_rows : List Row → List Row → Bool
  same_rows [] [] = true
  same_rows (r ∷ rs) (s ∷ ss) = length r == length s && all_in r s && same_rows rs ss
  same_rows _ _ = false

  unfoldable pub replace_rows : Model → List Row → Model
  replace_rows m incoming =
      if same_rows m.rows (last max_rows_per_model incoming)
      then m
      else record m { rows = last max_rows_per_model incoming }

  -- `updateRows`, for the rows that both lists have.
  unfoldable pub update_each : List Row → List Row → List Row
  update_each (values ∷ rest) (row ∷ rows) = insert_all values row ∷ update_each rest rows
  update_each _ rows = rows

  abbrev pub update_rows : Model → List Row → Model
  update_rows m values = record m { rows = update_each values m.rows }

  unfoldable pub remove_row : Model → ℤ → Model
  remove_row m (pos i) = record m { rows = remove_at i m.rows }
  remove_row m (negsuc i) = m

  abbrev pub remove_if : Bool → Model → ℤ → Model
  remove_if found m row = if found then remove_row m row else m

  -- The loop from the last row to the first one: `n` rows are left to look at.
  unfoldable pub remove_below : ℕ → Model → Bytes → Value → Model
  unfolding row_value
  remove_below zero m key v = m
  remove_below (suc n) m key v =
      remove_below n (remove_if (equal (row_value key (nth n m.rows)) v) m (pos n)) key v

  abbrev pub remove_rows_by_value : Model → Bytes → Value → Model
  remove_rows_by_value m key v = remove_below (length m.rows) m key v

  abbrev pub clear : Model → Model
  clear m = replace_rows m []
