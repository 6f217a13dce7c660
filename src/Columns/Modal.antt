-- ===== src/Columns/Modal.antt =====
-- components/organisms/column-preferences-modal: the draft rows while the dialog is open.
use testnexa.Base.{
  ℕ, ◌≡◌, Bool, false, not, ◌&&◌, ◌||◌, some, List, length, filter, get_elem?, num_eq,
}
use testnexa.Base.Index.{ℤ, pos, update_index}
use testnexa.Columns.{
  ColumnPreferences, ColumnPreferenceRow, visible_of, Direction, move_row, preferences_from_rows,
}

-- `visibleCount`
abbrev pub visible_count : List ColumnPreferenceRow → ℕ
visible_count draft = length (filter visible_of draft)

abbrev pub flip : ColumnPreferenceRow → ColumnPreferenceRow
flip row = record row { visible = not row.visible }

unfoldable pub toggle : ℤ → List ColumnPreferenceRow → List ColumnPreferenceRow
toggle index draft = update_index index flip draft

-- `disabled` of a row's checkbox.
unfoldable pub is_disabled : List ColumnPreferenceRow → ColumnPreferenceRow → Bool
is_disabled draft row =
    let is_last_visible = row.visible && num_eq (visible_count draft) 1 in
    row.locked || is_last_visible

-- What `onApply` is called with.
unfoldable pub applied : List ColumnPreferenceRow → ColumnPreferences
applied draft = preferences_from_rows draft

-- One edit: a checkbox that is not disabled, or an arrow button.
pub data Edit (draft : List ColumnPreferenceRow) : List ColumnPreferenceRow → Type 0 where
  tick :
      (i : ℕ) (row : ColumnPreferenceRow)
      → get_elem? draft i ≡ some row
      → is_disabled draft row ≡ false
      → Edit draft (toggle (pos i) draft)
  shift : (index : ℤ) (direction : Direction) → Edit draft (move_row draft index direction)

pub data Reach (draft : List ColumnPreferenceRow) : List ColumnPreferenceRow → Type 0 where
  here : Reach draft draft
  next :
      {mid after : List ColumnPreferenceRow} → Reach draft mid → Edit mid after → Reach draft after
