-- ===== src/Tests/Columns.antt =====
-- The column preferences on a concrete entity.
use testnexa.Base.{
  String, ◌≡◌, refl, not, ◌==◌, Option, none, some, List, [], ◌∷◌, ◌++◌, filter, if◌then◌else◌,
  arith,
}
use testnexa.Base.Names.{has, Distinct}
use testnexa.Base.Dedup.{dedup}
use testnexa.Base.Index.{pos}
use testnexa.Json.{Json, num, arr, Fields, end, field, text_array}
use testnexa.Entity.{names_of}
use testnexa.Columns.{
  ColumnPreferences, ColumnPreferenceRow, ordered_fields, fields_of, visible_of, to_preference_rows,
  preferences_from_rows, apply_column_preferences, down, move_row,
}
use testnexa.Columns.Modal.{applied, shift, here, next}
use testnexa.Columns.Merge.{names_of-ordered_fields}
use testnexa.Columns.Rows.{IsRows, to_preference_rows-IsRows}
use testnexa.Columns.Reload.{to_preference_rows-preferences_from_rows}
use testnexa.Columns.Editing.{IsEditable, Reach-IsEditable}
use testnexa.Columns.Storage.{to_json, works, load_column_preferences, save_column_preferences}
use testnexa.Columns.Storage.Stored.{apply-load-save}
use testnexa.Tests.Samples.{sample_fields}

abbrev stale : ColumnPreferences
stale = record { v = 1; order = "due" ∷ "gone" ∷ "name" ∷ "due" ∷ []; hidden = "due" ∷ "name" ∷ [] }

abbrev locked_names : List String
locked_names = "name" ∷ []

sample-Distinct : Distinct (names_of sample_fields)
sample-Distinct = (refl, (refl, (refl, tt)))

names_of-ordered_fields_example :
    names_of (ordered_fields sample_fields stale.order)
    ≡ filter (has (names_of sample_fields)) (dedup stale.order)
      ++ filter (λ n. not (has stale.order n)) (dedup (names_of sample_fields))
names_of-ordered_fields_example = names_of-ordered_fields sample_fields stale.order

abbrev merged : List ColumnPreferenceRow
merged = to_preference_rows sample_fields (some stale) locked_names

to_preference_rows-IsRows_example : IsRows sample_fields locked_names merged
to_preference_rows-IsRows_example =
    to_preference_rows-IsRows sample_fields (some stale) locked_names sample-Distinct

to_preference_rows-preferences_from_rows_example :
    to_preference_rows sample_fields (some (preferences_from_rows merged)) locked_names ≡ merged
to_preference_rows-preferences_from_rows_example =
    to_preference_rows-preferences_from_rows sample_fields locked_names merged sample-Distinct
      (to_preference_rows-IsRows sample_fields (some stale) locked_names sample-Distinct)

merged-IsEditable : IsEditable sample_fields locked_names merged
unfolding to_preference_rows ordered_fields
merged-IsEditable = record {
  rows = to_preference_rows-IsRows sample_fields (some stale) locked_names sample-Distinct;
  some_visible = omega arith;
}

Reach-IsEditable_example : IsEditable sample_fields locked_names (move_row merged (pos 0) down)
Reach-IsEditable_example =
    Reach-IsEditable sample_fields locked_names {before = merged}
      {after = move_row merged (pos 0) down} (next here (shift (pos 0) down)) merged-IsEditable

-- A parser and a printer that agree on one value.
abbrev print : Json → String
print value = "x"

abbrev parse_as : Json → String → Option Json
parse_as value text = if text == "x" then some value else none

apply-load-save_example :
    apply_column_preferences sample_fields
      (load_column_preferences
        (parse_as (to_json (applied merged)))
        print
        works
        (save_column_preferences
          (parse_as (to_json (applied merged)))
          print
          works
          "defect"
          (applied merged)
          [])
        "defect")
      locked_names
    ≡ fields_of (filter visible_of merged)
apply-load-save_example =
    apply-load-save (parse_as (to_json (applied merged))) print "defect" sample_fields locked_names
      merged [] sample-Distinct merged-IsEditable refl refl

abbrev stored_object : Fields
stored_object = field "v" (num 1) (
    field "order" (arr (text_array stale.order))
      (field "hidden" (arr (text_array stale.hidden)) end))
