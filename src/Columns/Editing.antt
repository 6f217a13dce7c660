-- ===== src/Columns/Editing.antt =====
-- What holds of the Columns dialog's rows after any edits, and what Apply then shows.
use testnexa.Base.{
  ℕ, zero, suc, ◌+◌, ◌<◌, String, ◌≡◌, refl, ap, false, some, List, [], ◌∷◌, arith, length, filter,
  is_empty, get_elem?, modify_at, All, if◌then◌else◌,
}
use testnexa.Base.Names.{Distinct}
use testnexa.Base.Index.{pos}
use testnexa.Entity.{FieldConfig, names_of}
use testnexa.Columns.{ColumnPreferenceRow, fields_of, visible_of, apply_column_preferences}
use testnexa.Columns.Rows.{IsRow, IsRows}
use testnexa.Columns.Reload.{to_preference_rows-preferences_from_rows}
use testnexa.Columns.Move.{move_row-IsRows, count-move_row}
use testnexa.Columns.Modal.{
  visible_count, flip, toggle, is_disabled, applied, Edit, tick, shift, Reach, here, next,
}

fields_of-toggle :
    (i : ℕ) (draft : List ColumnPreferenceRow)
    → fields_of (modify_at i flip draft) ≡ fields_of draft
fields_of-toggle zero [] = refl
fields_of-toggle (suc i) [] = refl
fields_of-toggle zero (row ∷ rows) = refl
fields_of-toggle (suc i) (row ∷ rows) = ap (◌∷◌ row.field) (fields_of-toggle i rows)

module _ (fields : List FieldConfig) (locked : List String) where
  each-toggle :
      (i : ℕ) (draft : List ColumnPreferenceRow) {row : ColumnPreferenceRow}
      → get_elem? draft i ≡ some row
      → row.locked ≡ false
      → All (IsRow fields locked) draft
      → All (IsRow fields locked) (modify_at i flip draft)
  each-toggle i [] at free h = cc
  each-toggle zero (r ∷ rows) at free (p, h) =
      (record { genuine = p.genuine; lock = p.lock; shown = λ l. ground arith }, h)
  each-toggle (suc i) (r ∷ rows) at free (p, h) = (p, each-toggle i rows at free h)

count-toggle :
    (i : ℕ) (draft : List ColumnPreferenceRow) {row : ColumnPreferenceRow}
    → get_elem? draft i ≡ some row
    → length (filter visible_of (modify_at i flip draft)) + (if row.visible then 1 else 0)
      ≡ length (filter visible_of draft) + (if row.visible then 0 else 1)
count-toggle i [] at = cc
count-toggle zero (r ∷ rows) at = ground arith
count-toggle (suc i) (r ∷ rows) {row} at = ground (arith, count-toggle i rows {row = row} at)

-- Rows that a merge could show, with a column left in the table.
pub record IsEditable (fields : List FieldConfig) (locked : List String)
    (draft : List ColumnPreferenceRow) : Type 0 where
  pub rows : IsRows fields locked draft
  pub some_visible : 0 < visible_count draft

module _ (fields : List FieldConfig) (locked : List String) where
  toggle-IsRows :
      (i : ℕ) (draft : List ColumnPreferenceRow) (row : ColumnPreferenceRow)
      → get_elem? draft i ≡ some row
      → row.locked ≡ false
      → IsRows fields locked draft
      → IsRows fields locked (toggle (pos i) draft)
  unfolding toggle
  toggle-IsRows i draft row at free r = record {
    distinct = rw (fields_of-toggle i draft) r.distinct;
    served = λ n. rw (fields_of-toggle i draft) (r.served n);
    each = each-toggle fields locked i draft at free r.each;
  }

  Edit-IsEditable :
      {before after : List ColumnPreferenceRow}
      → Edit before after
      → IsEditable fields locked before
      → IsEditable fields locked after
  unfolding toggle is_disabled
  Edit-IsEditable {before} (tick i row at enabled) e = record {
    rows = toggle-IsRows i before row at (ground arith) e.rows;
    some_visible = ground (arith, count-toggle i before at, e.some_visible);
  }
  Edit-IsEditable {before} (shift index direction) e = record {
    rows = move_row-IsRows before index direction e.rows;
    some_visible = rw (count-move_row before index direction) e.some_visible;
  }

  -- Whatever the user does in the dialog, the draft keeps each served field exactly once, no locked
  -- field is hidden, and at least one column stays visible, if that held when it was opened.
  pub Reach-IsEditable :
      {before after : List ColumnPreferenceRow}
      → Reach before after
      → IsEditable fields locked before
      → IsEditable fields locked after
  Reach-IsEditable here e = e
  Reach-IsEditable (next r step) e = Edit-IsEditable step (Reach-IsEditable r e)

is_empty-filter :
    (rows : List ColumnPreferenceRow)
    → 0 < visible_count rows
    → is_empty (fields_of (filter visible_of rows)) ≡ false
is_empty-filter [] h = absurd (omega arith)
is_empty-filter (row ∷ rows) h = ground (arith, is_empty-filter rows)

-- After Apply the table shows exactly the ticked columns, in the order of the dialog.
pub apply_column_preferences-applied :
    (fields : List FieldConfig) (locked : List String) (draft : List ColumnPreferenceRow)
    → Distinct (names_of fields)
    → IsEditable fields locked draft
    → apply_column_preferences fields (some (applied draft)) locked
      ≡ fields_of (filter visible_of draft)
unfolding apply_column_preferences applied
apply_column_preferences-applied fields locked draft d e =
    rw
      (
        to_preference_rows-preferences_from_rows fields locked draft d e.rows,
        is_empty-filter draft e.some_visible,
      )
      refl
