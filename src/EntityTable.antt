-- ===== src/EntityTable.antt =====
-- components/organisms/entity-table/entity-table.tsx: what the table offers for its props.
pub mod Choice
use testnexa.Base.{
  ℕ, String, Bool, true, false, not, ◌&&◌, ◌||◌, ◌==◌, truthy, is_empty, any, map, get_or, num_eq,
  Option, none, some, List, [], ◌∷◌, ◌++◌, if◌then◌else◌,
}
use testnexa.Json.{Fields}
use testnexa.Entity.{FieldConfig, EntityConfig, Method, update, delete}
use testnexa.Filters.{filterable_fields, active_filter_count}
use testnexa.RelationTab.Sorting.{SortDirection, asc, desc}

-- The props that are tested: a callback that may be missing is whether it is there.
pub record Props : Type 0 where
  pub config : EntityConfig
  pub rows : List Fields
  pub loading : Bool
  pub sort_field : Option String
  pub sort_dir : Option SortDirection
  pub filters : Option (List (String × String))
  pub on_sort_change : Bool
  pub on_filters_change : Bool
  pub on_search_change : Bool
  pub on_edit : Bool
  pub on_delete : Bool
  pub on_unlink : Bool
  pub can_edit_row : Fields → Bool
  pub can_delete_row : Fields → Bool

abbrev is_update : Method → Bool
is_update update = true
is_update _ = false

abbrev is_delete : Method → Bool
is_delete delete = true
is_delete _ = false

abbrev pub has_update : EntityConfig → Bool
has_update config = any is_update config.methods

abbrev pub has_delete : EntityConfig → Bool
has_delete config = any is_delete config.methods

unfoldable pub show_actions_column : Props → Bool
show_actions_column p =
    (has_update p.config || has_delete p.config) && (p.on_edit || p.on_delete) || p.on_unlink

unfoldable pub show_search : Props → Bool
show_search p = p.on_search_change && not (is_empty (get_or p.config.search_fields []))

unfoldable pub show_filter : Props → Bool
show_filter p = p.on_filters_change && not (is_empty (filterable_fields p.config))

-- `filters ?? {}`
abbrev pub applied_filters : Props → List (String × String)
applied_filters p = get_or p.filters []

-- The number on the Filter button; none where the count is 0.
unfoldable pub filter_badge : Props → Option ℕ
filter_badge p =
    let count = active_filter_count (applied_filters p) in
    if num_eq count 0 then none else some count

-- `isActive` of a column, with the direction that its header shows.
unfoldable pub active_dir : Props → FieldConfig → Option SortDirection
active_dir p field = elim p.sort_field [
  | none ↦ none
  | some name ↦ if name == field.name then some (get_or p.sort_dir asc) else none
]

unfoldable pub is_sortable : Props → FieldConfig → Bool
is_sortable p field = p.on_sort_change && get_or field.sortable true

pub data Action : Type 0 where
  edit_row delete_row unlink_row : Action

abbrev when : Bool → Action → List Action
when test action = if test then action ∷ [] else []

-- The buttons of a row, in their order.
unfoldable pub row_actions : Props → Fields → List Action
row_actions p row =
    if show_actions_column p
    then when (has_update p.config && p.on_edit && p.can_edit_row row) edit_row
      ++ when (has_delete p.config && p.on_delete && p.can_delete_row row) delete_row
      ++ when p.on_unlink unlink_row
    else []

-- What the body of the card is.
pub data Body : Type 0 where
  spinner no_records table : Body

unfoldable pub body_of : Props → Body
body_of p = if p.loading then spinner else if is_empty p.rows then no_records else table
