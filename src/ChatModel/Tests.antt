-- ===== src/ChatModel/Tests.antt =====
-- Runs of a list model, and the theorems about it at concrete rows. A value is its text.
use cross_language_lan_chatr.Prelude.{◌≡◌, refl, List, [], ◌∷◌, ◌++◌, arith, Bytes, codes, same}
use cross_language_lan_chatr.Prelude.Map.{lookup, insert, bytes_eq}
use cross_language_lan_chatr.ChatModel.{
  Variant, Model, Row, max_rows_per_model, merged, append_rows, last, find_row, find_role,
  insert_all, merge_rows, modify,
}
use cross_language_lan_chatr.ChatModel.Bounds.{append_rows-last}

abbrev texts : Variant
texts = record { Value = Bytes; invalid = []; equal = same; to_text = λ v. v; of_text = λ v. v }

abbrev row : Bytes → Bytes → Row texts
row id body = (codes "messageId", id) ∷ (codes "body", body) ∷ []

abbrev messages : Model texts
messages = record {
  roles = (257, codes "messageId") ∷ (258, codes "body") ∷ [];
  rows = row (codes "m1") (codes "hi") ∷ [];
}

-- A known message id updates its row, a new one that comes twice gives one row.
abbrev arriving : List (Row texts)
arriving =
    row (codes "m1") (codes "edited")
    ∷ row (codes "m2") (codes "a")
    ∷ row (codes "m2") (codes "b")
    ∷ []

arriving_merges :
    (append_rows texts messages arriving).rows
    ≡ row (codes "m1") (codes "edited") ∷ row (codes "m2") (codes "b") ∷ []
unfolding append_rows merged find_role merge_rows find_row lookup insert insert_all modify same
arriving_merges = refl

append_rows-last_example :
    (append_rows texts messages arriving).rows
    ≡ last max_rows_per_model
        ((merged texts messages arriving).0 ++ (merged texts messages arriving).1)
append_rows-last_example = append_rows-last texts messages arriving (omega arith)
