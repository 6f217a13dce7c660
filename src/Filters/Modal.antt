-- ===== src/Filters/Modal.antt =====
-- components/organisms/filter-modal: the draft while the dialog is open, as a step relation over
-- the edits that its controls offer.
use testnexa.Base.{String, ◌≡◌, Bool, true, none, some, List, [], is_some}
use testnexa.Base.Names.{has}
use testnexa.Base.Index.{ℤ}
use testnexa.Entity.{FieldConfig, EntityConfig, names_of}
use testnexa.Filters.{
  FilterCondition, available_fields_for, next_unused_field, add_condition, remove_condition,
  update_condition, filters_from_conditions, conditions_from_filters, filterable_fields,
}

pub record FilterModal : Type 0 where
  pub fields : List FieldConfig
  pub draft : List FilterCondition

-- The effect that runs when the dialog becomes visible, and the initial state.
unfoldable pub open_modal : EntityConfig → List (String × String) → FilterModal
open_modal config filters =
    let fields = filterable_fields config in
    record { fields = fields; draft = conditions_from_filters filters fields }

-- `canAdd`
unfoldable pub can_add : FilterModal → Bool
can_add m = is_some (next_unused_field m.fields m.draft)

-- `set` of `renderValueControl`
unfoldable pub set_value : ℤ → String → FilterModal → FilterModal
set_value index value m = record m {
  draft = update_condition m.draft index (record { field = none; value = some value });
}

-- The `onChange` of a row's own field picker.
unfoldable pub pick_field : ℤ → String → FilterModal → FilterModal
pick_field index field m = record m {
  draft = update_condition m.draft index (record { field = some field; value = none });
}

unfoldable pub remove_row : ℤ → FilterModal → FilterModal
remove_row index m = record m { draft = remove_condition m.draft index }

unfoldable pub add_row : FilterModal → FilterModal
add_row m = record m { draft = add_condition m.fields m.draft }

unfoldable pub clear_all : FilterModal → FilterModal
clear_all m = record m { draft = [] }

-- What `onApply` is called with.
unfoldable pub applied : FilterModal → List (String × String)
applied m = filters_from_conditions m.draft

-- One edit. The add button is disabled unless `canAdd`, and a picker offers what
-- `availableFieldsFor` returns for its row.
pub data Edit (m : FilterModal) : FilterModal → Type 0 where
  add : can_add m ≡ true → Edit m (add_row m)
  remove : (index : ℤ) → Edit m (remove_row index m)
  value : (index : ℤ) (v : String) → Edit m (set_value index v m)
  pick :
      (index : ℤ) (field : String)
      → has (names_of (available_fields_for m.fields m.draft index)) field ≡ true
      → Edit m (pick_field index field m)
  clear : Edit m (clear_all m)

-- The states that a sequence of edits reaches.
pub data Reach (m : FilterModal) : FilterModal → Type 0 where
  here : Reach m m
  next : {n o : FilterModal} → Reach m n → Edit n o → Reach m o
