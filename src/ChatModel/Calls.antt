-- ===== src/ChatModel/Calls.antt =====
-- Every sequence of calls on a list model (chat_model.cpp).
use cross_language_lan_chatr.Prelude.{
  ℕ, zero, suc, ◌≤◌, ◌≡◌, refl, ap, Bool, true, false, List, [], ◌∷◌, ◌++◌, arith, length, Bytes, ℤ,
  pos, negsuc, Bool-cases, inl, inr, length-take,
}
use cross_language_lan_chatr.ChatModel.{
  Variant, Model, Row, max_rows_per_model, last, make_model, update_row, merged, append_rows,
  prepend_rows, replace_rows, same_rows, update_each, update_rows, remove_row, remove_below,
  remove_if, remove_rows_by_value, insert_all, clear,
}
use cross_language_lan_chatr.ChatModel.Bounds.{
  length-modify, length-remove_at, length-last, append_rows-last, prepend_rows-take,
}

module _ (variant : Variant) where
  open variant use {Value}

  pub data Call : Type 0 where
    appends prepends replaces updates_all : List (Row variant) → Call
    updates : ℤ → Row variant → Call
    removes : ℤ → Call
    removes_by_value : Bytes → Value → Call
    clears : Call

  unfoldable pub step : Model variant → Call → Model variant
  step m (appends rows) = append_rows variant m rows
  step m (prepends rows) = prepend_rows variant m rows
  step m (replaces rows) = replace_rows variant m rows
  step m (updates_all values) = update_rows variant m values
  step m (updates row values) = update_row variant m row values
  step m (removes row) = remove_row variant m row
  step m (removes_by_value key v) = remove_rows_by_value variant m key v
  step m clears = clear variant m

  unfoldable pub run : Model variant → List Call → Model variant
  run m [] = m
  run m (call ∷ calls) = run (step m call) calls

  abbrev Bounded : Model variant → Type 0
  Bounded m = length m.rows ≤ max_rows_per_model

  replace_rows-Bounded :
      (m : Model variant) (rows : List (Row variant))
      → Bounded m
      → Bounded (replace_rows variant m rows)
  unfolding replace_rows
  replace_rows-Bounded m rows h =
      elim (Bool-cases (same_rows variant m.rows (last max_rows_per_model rows))) [
        | inl same ↦ rw same h
        | inr other ↦ rw other (omega (arith, length-last max_rows_per_model rows))
      ]

  length-update_each :
      (values rows : List (Row variant)) → length (update_each variant values rows) ≡ length rows
  unfolding update_each
  length-update_each [] rows = refl
  length-update_each (v ∷ values) [] = refl
  length-update_each (v ∷ values) (row ∷ rows) = ap suc (length-update_each values rows)

  remove_row-Bounded :
      (m : Model variant) (row : ℤ) → Bounded m → Bounded (remove_row variant m row)
  unfolding remove_row
  remove_row-Bounded m (pos i) h = omega (arith, length-remove_at i m.rows)
  remove_row-Bounded m (negsuc i) h = h

  remove_if-Bounded :
      (found : Bool) (m : Model variant) (row : ℤ)
      → Bounded m
      → Bounded (remove_if variant found m row)
  remove_if-Bounded true m row h = remove_row-Bounded m row h
  remove_if-Bounded false m row h = h

  remove_below-Bounded :
      (n : ℕ) (m : Model variant) (key : Bytes) (v : Value)
      → Bounded m
      → Bounded (remove_below variant n m key v)
  unfolding remove_below
  remove_below-Bounded zero m key v h = h
  remove_below-Bounded (suc n) m key v h =
      remove_below-Bounded n _ key v (remove_if-Bounded _ m (pos n) h)

  step-Bounded : (m : Model variant) (call : Call) → Bounded m → Bounded (step m call)
  unfolding step update_row
  step-Bounded m (appends rows) h =
      let (known, new) = merged variant m rows in
      omega (
        arith,
        ap length (append_rows-last variant m rows h),
        length-last max_rows_per_model (known ++ new),
      )
  step-Bounded m (prepends rows) h = omega (
    arith,
    ap length (prepend_rows-take variant m rows h),
    length-take max_rows_per_model (last max_rows_per_model rows ++ m.rows),
  )
  step-Bounded m (replaces rows) h = replace_rows-Bounded m rows h
  step-Bounded m (updates_all values) h = omega (arith, length-update_each values m.rows)
  step-Bounded m (updates (pos i) values) h =
      omega (arith, length-modify i (insert_all variant values) m.rows)
  step-Bounded m (updates (negsuc i) values) h = h
  step-Bounded m (removes row) h = remove_row-Bounded m row h
  step-Bounded m (removes_by_value key v) h = remove_below-Bounded (length m.rows) m key v h
  step-Bounded m clears h = replace_rows-Bounded m [] h

  run-Bounded : (m : Model variant) (calls : List Call) → Bounded m → Bounded (run m calls)
  unfolding run
  run-Bounded m [] h = h
  run-Bounded m (call ∷ calls) h = run-Bounded (step m call) calls (step-Bounded m call h)

  -- No sequence of calls on a new model makes it hold more than 1000 rows.
  pub run-make_model :
      (names : List Bytes) (calls : List Call)
      → length (run (make_model variant names) calls).rows ≤ max_rows_per_model
  unfolding make_model
  run-make_model names calls = run-Bounded (make_model variant names) calls (omega arith)
