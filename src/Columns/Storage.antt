-- ===== src/Columns/Storage.antt =====
-- The preferences in `localStorage`: reading, writing and clearing, with storage that may throw.
pub mod Stored
pub mod Kept
use Prim.Native.String.{◌++◌ as str_append}
use testnexa.Base.{
  String, ◌≡◌, ◌≢◌, refl, sym, ap, ◌∙◌, Bool, true, false, ◌&&◌, Option, none, some, List, [], ◌∷◌,
  arith, ◌==◌, eq_iff, truthy, num_eq, if◌then◌else◌,
}
use testnexa.Base.Dict.{lookup, insert, lookup-insert}
use testnexa.Json.{
  Json, null, bool, num, other_num, str, arr, obj, Fields, end, field, property, texts_of,
  text_array, texts_of-text_array,
}
use testnexa.Columns.{ColumnPreferences, column_preferences_version}

abbrev pub column_preferences_key : String → String
column_preferences_key resource = str_append "testnexa.column-prefs." resource

-- `isStringArray(value)`, with the texts; `undefined` is no array.
pub is_string_array : Option Json → Option (List String)
is_string_array (some (arr items)) = texts_of items
is_string_array _ = none

abbrev pub is_version : Option Json → Bool
is_version (some (num n)) = num_eq n column_preferences_version
is_version _ = false

-- The object with the two lists, if both are there.
pub both_lists : Option (List String) → Option (List String) → Option ColumnPreferences
both_lists (some order) (some hidden) =
    some (record { v = column_preferences_version; order = order; hidden = hidden })
both_lists _ _ = none

-- The tests after `JSON.parse`. An array is an object too, and has no `v`.
pub narrow : Json → Option ColumnPreferences
unfolding both_lists is_string_array property texts_of
narrow (obj fields) =
    if is_version (property "v" fields)
    then both_lists (is_string_array (property "order" fields))
        (is_string_array (property "hidden" fields))
    else none
narrow _ = none

-- What `JSON.stringify` is given.
pub to_json : ColumnPreferences → Json
unfolding text_array
to_json p = obj (
    field "v" (num p.v)
      (field "order" (arr (text_array p.order)) (field "hidden" (arr (text_array p.hidden)) end)))

-- Whether a call of the storage returns or throws (blocked, over quota).
pub data Access : Type 0 where
  works throws : Access

module _ (parse : String → Option Json) (stringify : Json → String) where
  -- `JSON.parse` in its `try`: `none` where it throws.
  pub parse_column_preferences : Option String → Option ColumnPreferences
  unfolding narrow
  parse_column_preferences none = none
  parse_column_preferences (some raw) =
      if truthy raw then elim (parse raw) [ none ↦ none | some parsed ↦ narrow parsed ] else none

  pub load_column_preferences : Access → List (String × String) → String → Option ColumnPreferences
  unfolding parse_column_preferences
  load_column_preferences works storage resource =
      parse_column_preferences (lookup (column_preferences_key resource) storage)
  load_column_preferences throws storage resource = none

  pub save_column_preferences :
      Access → String → ColumnPreferences → List (String × String) → List (String × String)
  unfolding to_json
  save_column_preferences works resource preferences storage =
      insert (column_preferences_key resource) (stringify (to_json preferences)) storage
  save_column_preferences throws resource preferences storage = storage

pub remove_item : String → List (String × String) → List (String × String)
remove_item k [] = []
remove_item k ((j, v) ∷ m) = let rest = remove_item k m in if j == k then rest else (j, v) ∷ rest

pub clear_column_preferences : Access → String → List (String × String) → List (String × String)
unfolding remove_item
clear_column_preferences works resource storage =
    remove_item (column_preferences_key resource) storage
clear_column_preferences throws resource storage = storage
