-- ===== src/ChatModel/Bounds.antt =====
-- How many rows a list model holds, and which (chat_model.cpp).
use mathlib.Core.List.{append-nil}
use cross_language_lan_chatr.Prelude.{
  ℕ, zero, suc, ◌+◌, ◌-◌, ◌≤◌, ◌≡◌, refl, sym, ap, ◌∙◌, min, false, not, Option, none, some, List,
  [], ◌∷◌, ◌++◌, arith, ltb, leb, ◌==◌, length, is_empty, take, drop, Bytes, Bool-cases,
  Option-cases, inl, inr, length-drop, length-append, drop-drop, drop_all, drop-append, take_all,
}
use cross_language_lan_chatr.Prelude.Map.{lookup, bytes_eq}
use cross_language_lan_chatr.ChatModel.{
  Variant, Model, Row, max_rows_per_model, message_id, display_role, role_for_name, modify,
  remove_at, last, find_row, value, Merging, merge_row, merge_found, merge_rows, merged, overflow,
  append_trimmed, append_merged, append_rows, prepend_trimmed, prepend_rows, insert_all,
}

module _ {ℓ} {A : Type ℓ} where
  pub length-modify : (i : ℕ) (f : A → A) (xs : List A) → length (modify i f xs) ≡ length xs
  unfolding modify
  length-modify i f [] = refl
  length-modify zero f (x ∷ xs) = refl
  length-modify (suc i) f (x ∷ xs) = ap suc (length-modify i f xs)

  pub length-remove_at : (i : ℕ) (xs : List A) → length (remove_at i xs) ≤ length xs
  unfolding remove_at
  length-remove_at i [] = omega arith
  length-remove_at zero (x ∷ xs) = omega arith
  length-remove_at (suc i) (x ∷ xs) = omega (arith, length-remove_at i xs)

  last-drop : (n : ℕ) (xs : List A) → last n xs ≡ drop (length xs - n) xs
  last-drop n xs = elim (Bool-cases (ltb n (length xs))) [
    | inl long ↦ rw long refl
    | inr short ↦ let none : length xs - n ≡ 0 = ground arith in rw (short, none) refl
  ]

  pub length-last : (n : ℕ) (xs : List A) → length (last n xs) ≡ min n (length xs)
  length-last n xs = omega (arith, ap length (last-drop n xs), length-drop (length xs - n) xs)

  drop_within : (n : ℕ) (xs ys : List A) → n ≤ length xs → drop n (xs ++ ys) ≡ drop n xs ++ ys
  drop_within zero xs ys h = refl
  drop_within (suc n) [] ys h = absurd (omega arith)
  drop_within (suc n) (x ∷ xs) ys h = drop_within n xs ys (omega arith)

  take_beyond :
      (n : ℕ) (xs ys : List A) → length xs ≤ n → take n (xs ++ ys) ≡ xs ++ take (n - length xs) ys
  take_beyond n [] ys h = let same : n ≡ n - 0 = omega arith in ap (λ j. take j ys) same
  take_beyond zero (x ∷ xs) ys h = absurd (omega arith)
  take_beyond (suc n) (x ∷ xs) ys h =
      let same : n - length xs ≡ suc n - suc (length xs) = omega arith in
      ap (◌∷◌ x) (take_beyond n xs ys (omega arith) ∙ ap (λ j. xs ++ take j ys) same)

  nil_of_length : (xs : List A) → length xs ≡ 0 → xs ≡ []
  nil_of_length [] e = refl
  nil_of_length (x ∷ xs) e = absurd (omega arith)

module _ (variant : Variant) where
  append_trimmed-drop :
      (rows incoming : List (Row variant))
      → append_trimmed variant rows incoming
        ≡ drop (overflow variant rows incoming) rows ++ incoming
  append_trimmed-drop [] incoming = elim (Bool-cases (leb 0 (overflow variant [] incoming))) [
    | inl all ↦ rw all refl
    | inr less ↦ rw less refl
  ]
  append_trimmed-drop (r ∷ rows) incoming =
      elim (Bool-cases (leb (length (r ∷ rows)) (overflow variant (r ∷ rows) incoming))) [
        | inl all ↦
            rw (all, drop_all (overflow variant (r ∷ rows) incoming) (r ∷ rows) (ground arith)) refl
        | inr less ↦ rw less refl
      ]

  append_trimmed-last :
      (rows incoming : List (Row variant))
      → length rows ≤ max_rows_per_model
      → append_trimmed variant rows (last max_rows_per_model incoming)
        ≡ last max_rows_per_model (rows ++ incoming)
  append_trimmed-last rows incoming h =
      let n = length rows + length incoming - max_rows_per_model in
      let kept = last max_rows_per_model incoming in
      let trimmed : overflow variant rows kept
          ≡ length rows + min max_rows_per_model (length incoming) - max_rows_per_model =
        omega (arith, length-last max_rows_per_model incoming) in
      let target : last max_rows_per_model (rows ++ incoming) ≡ drop n (rows ++ incoming) =
        last-drop max_rows_per_model (rows ++ incoming)
        ∙ ap (λ k. drop (k - max_rows_per_model) (rows ++ incoming))
            (length-append rows incoming) in
      append_trimmed-drop rows kept ∙ elim (Bool-cases (leb (length incoming) max_rows_per_model)) [
        | inl few ↦
            let front : overflow variant rows kept ≡ n = ground (arith, trimmed) in
            let all : length incoming - max_rows_per_model ≡ 0 = ground arith in
            let same_kept : kept ≡ incoming =
              last-drop max_rows_per_model incoming ∙ ap (λ k. drop k incoming) all in
            ap (λ k. drop k rows ++ kept) front
            ∙ ap (λ ys. drop n rows ++ ys) same_kept
            ∙ sym (drop_within n rows incoming (ground arith))
            ∙ sym target
        | inr many ↦
            let all : length rows ≤ overflow variant rows kept = ground (arith, trimmed) in
            let parts : length rows + (length incoming - max_rows_per_model) ≡ n = ground arith in
            ap (λ xs. xs ++ kept) (drop_all (overflow variant rows kept) rows all)
            ∙ last-drop max_rows_per_model incoming
            ∙ ap (drop (length incoming - max_rows_per_model)) (sym (drop-append rows incoming))
            ∙ drop-drop (length rows) (length incoming - max_rows_per_model) n (rows ++ incoming)
                parts
            ∙ sym target
      ]

  length-merge_found :
      (id : Bytes) (row : Row variant) (s : Merging variant) (found : Option ℕ)
      → length (merge_found variant id row s found).0 ≡ length s.0
  length-merge_found id row (rows, unique, places) (some i) =
      length-modify i (insert_all variant row) rows
  length-merge_found id row (rows, unique, places) none = elim (Option-cases (lookup id places)) [
    | inl new ↦ rw new refl
    | inr (i, known) ↦ rw known refl
  ]

  length-merge_row :
      (row : Row variant) (s : Merging variant) → length (merge_row variant row s).0 ≡ length s.0
  length-merge_row row (rows, unique, places) =
      let id = variant.to_text (value variant message_id row) in
      elim (Bool-cases (is_empty id)) [
        | inl anonymous ↦ rw anonymous refl
        | inr named ↦ rw named (
            length-merge_found id row (rows, unique, places)
              (find_row variant rows message_id (variant.of_text id)))
      ]

  length-merge_rows :
      (incoming : List (Row variant)) (s : Merging variant)
      → length (merge_rows variant incoming s).0 ≡ length s.0
  unfolding merge_rows
  length-merge_rows [] s = refl
  length-merge_rows (row ∷ incoming) s =
      length-merge_rows incoming (merge_row variant row s) ∙ length-merge_row row s

  length-merged :
      (m : Model variant) (incoming : List (Row variant))
      → length (merged variant m incoming).0 ≡ length m.rows
  unfolding merged
  length-merged m incoming =
      elim (Bool-cases (not (role_for_name variant m message_id == display_role))) [
        | inl ids ↦ rw ids (length-merge_rows incoming (m.rows, [], []))
        | inr plain ↦ rw plain refl
      ]

  append_merged-last :
      (p : List (Row variant) × List (Row variant))
      → length p.0 ≤ max_rows_per_model
      → append_merged variant p ≡ last max_rows_per_model (p.0 ++ p.1)
  append_merged-last (rows, []) h =
      let short : ltb max_rows_per_model (length (rows ++ [])) ≡ false =
        ground (arith, length-append rows []) in
      rw short (sym (append-nil rows))
  append_merged-last (rows, row ∷ incoming) h = append_trimmed-last rows (row ∷ incoming) h

  -- A model with at most 1000 rows, to which rows are appended, holds the last 1000 of its rows and
  -- the new ones: of the rows as they are handed over if it has no role for message ids, and else
  -- of what the search for known message ids has left of them.
  pub append_rows-last :
      (m : Model variant) (incoming : List (Row variant))
      → length m.rows ≤ max_rows_per_model
      → (append_rows variant m incoming).rows
        ≡ last max_rows_per_model ((merged variant m incoming).0 ++ (merged variant m incoming).1)
  unfolding append_rows merged merge_rows
  append_rows-last m [] h =
      let short : ltb max_rows_per_model (length (m.rows ++ [])) ≡ false =
        ground (arith, length-append m.rows []) in
      elim (Bool-cases (not (role_for_name variant m message_id == display_role))) [
        | inl ids ↦ rw (ids, short) (sym (append-nil m.rows))
        | inr plain ↦ rw (plain, short) (sym (append-nil m.rows))
      ]
  append_rows-last m (row ∷ incoming) h =
      append_merged-last (merged variant m (row ∷ incoming))
        (omega (arith, length-merged m (row ∷ incoming)))

  prepend_trimmed-front :
      (rows incoming : List (Row variant))
      → prepend_trimmed variant rows incoming
        ≡ incoming ++ take (length rows - overflow variant rows incoming) rows
  prepend_trimmed-front [] incoming = elim (Bool-cases (leb 0 (overflow variant [] incoming))) [
    | inl all ↦ rw all refl
    | inr less ↦ rw less refl
  ]
  prepend_trimmed-front (r ∷ rows) incoming =
      elim (Bool-cases (leb (length (r ∷ rows)) (overflow variant (r ∷ rows) incoming))) [
        | inl all ↦
            let none_left : length (r ∷ rows) - overflow variant (r ∷ rows) incoming ≡ 0 =
              ground arith in
            rw (all, none_left) (sym (append-nil incoming))
        | inr less ↦ rw less refl
      ]

  prepend_trimmed-take :
      (rows incoming : List (Row variant))
      → length rows ≤ max_rows_per_model
      → length incoming ≤ max_rows_per_model
      → prepend_trimmed variant rows incoming ≡ take max_rows_per_model (incoming ++ rows)
  prepend_trimmed-take rows incoming h k =
      let room = max_rows_per_model - length incoming in
      prepend_trimmed-front rows incoming
      ∙ ap (λ ys. incoming ++ ys)
          (elim (Bool-cases (leb (length rows) room)) [
            | inl fits ↦
                take_all (length rows - overflow variant rows incoming) rows (ground arith)
                ∙ sym (take_all room rows (ground arith))
            | inr exceeds ↦
                let same_room : length rows - overflow variant rows incoming ≡ room =
                  ground arith in
                ap (λ j. take j rows) same_room
          ])
      ∙ sym (take_beyond max_rows_per_model incoming rows k)

  -- A model with at most 1000 rows, in front of which rows are put, holds the first 1000 of the new
  -- rows, of which only the last 1000 count, and its own.
  pub prepend_rows-take :
      (m : Model variant) (incoming : List (Row variant))
      → length m.rows ≤ max_rows_per_model
      → (prepend_rows variant m incoming).rows
        ≡ take max_rows_per_model (last max_rows_per_model incoming ++ m.rows)
  unfolding prepend_rows
  prepend_rows-take m [] h = sym (take_all max_rows_per_model m.rows h)
  prepend_rows-take m (row ∷ incoming) h =
      prepend_trimmed-take m.rows (last max_rows_per_model (row ∷ incoming)) h
        (omega (arith, length-last max_rows_per_model (row ∷ incoming)))
