-- ===== src/Filters.antt =====
-- lib/entityFilters.ts: the draft conditions behind the Filter modal, and the map that they become.
pub mod Modal
pub mod Draft
pub mod Editing
pub mod Wire
use testnexa.Base.{
  ℕ, String, Bool, not, ◌&&◌, Option, none, some, List, [], ◌∷◌, ◌++◌, map, ◌==◌, truthy, is_empty,
  filter, find?, length, get_or, if◌then◌else◌,
}
use testnexa.Base.Names.{has}
use testnexa.Base.Dict.{insert}
use testnexa.Base.Index.{ℤ, out_of_range, without_index, update_index}
use testnexa.Entity.{FieldConfig, EntityConfig, names_of}

pub record FilterCondition : Type 0 where
  pub field : String
  pub value : String

-- `Partial<FilterCondition>`
pub record Patch : Type 0 where
  pub field : Option String
  pub value : Option String

-- `conditions.map((condition) => condition.field)`
abbrev pub claimed_of : List FilterCondition → List String
claimed_of = map (λ c. c.field)

unfoldable pub filterable_fields : EntityConfig → List FieldConfig
filterable_fields config =
    let allowed = get_or config.filter_fields [] in
    if is_empty allowed then [] else filter (λ field. has allowed field.name) config.fields

unfoldable pub available_fields_for : List FieldConfig → List FilterCondition → ℤ → List FieldConfig
available_fields_for fields conditions index =
    let claimed = claimed_of (without_index index conditions) in
    filter (λ field. not (has claimed field.name)) fields

unfoldable pub next_unused_field : List FieldConfig → List FilterCondition → Option FieldConfig
next_unused_field fields conditions =
    let claimed = claimed_of conditions in find? (λ field. not (has claimed field.name)) fields

unfoldable pub add_condition : List FieldConfig → List FilterCondition → List FilterCondition
unfolding next_unused_field
add_condition fields conditions = elim (next_unused_field fields conditions) [
  | none ↦ conditions
  | some field ↦ conditions ++ record { field = field.name; value = "" } ∷ []
]

unfoldable pub remove_condition : List FilterCondition → ℤ → List FilterCondition
remove_condition conditions index =
    if out_of_range index conditions then conditions else without_index index conditions

-- The row under the patch, one clause for each shape of the patch.
apply_patch : Patch → FilterCondition → FilterCondition
apply_patch patch condition = elim patch.field [
  | none ↦ record condition { value = get_or patch.value condition.value }
  | some field ↦
      if not (field == condition.field)
      then record { field = field; value = "" }
      else record { field = field; value = get_or patch.value condition.value }
]

unfoldable pub update_condition : List FilterCondition → ℤ → Patch → List FilterCondition
unfolding apply_patch
update_condition conditions index patch = update_index index (apply_patch patch) conditions

-- The test under which a row is submitted.
abbrev pub is_complete : FilterCondition → Bool
is_complete c = truthy c.field && truthy c.value

-- The loop of `filtersFromConditions`, over the map built so far.
collect : List (String × String) → List FilterCondition → List (String × String)
collect out [] = out
collect out (c ∷ cs) = collect (if is_complete c then insert c.field c.value out else out) cs

unfoldable pub filters_from_conditions : List FilterCondition → List (String × String)
unfolding collect
filters_from_conditions conditions = collect [] conditions

abbrev condition_of : String × String → FilterCondition
condition_of (field, value) = record { field = field; value = value }

-- The test under which an applied filter is shown again.
abbrev pub is_known : List FieldConfig → String × String → Bool
is_known fields (field, value) = has (names_of fields) field && truthy value

unfoldable pub conditions_from_filters :
    List (String × String) → List FieldConfig → List FilterCondition
conditions_from_filters filters fields = map condition_of (filter (is_known fields) filters)

unfoldable pub active_filter_count : List (String × String) → ℕ
active_filter_count filters = length (filter (λ e. truthy e.1) filters)
