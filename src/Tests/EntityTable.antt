-- ===== src/Tests/EntityTable.antt =====
-- The choice of columns of two entities, with a storage that works and one that throws.
use testnexa.Base.{String, ◌≡◌, refl, Option, some, none, List, [], ◌∷◌, ◌==◌, if◌then◌else◌}
use testnexa.Json.{Json}
use testnexa.Entity.{EntityConfig}
use testnexa.Columns.{
  ColumnPreferences, default_table_fields, locked_field_names, apply_column_preferences,
}
use testnexa.Columns.Storage.{to_json, works, throws}
use testnexa.Columns.Storage.Kept.{stored}
use testnexa.EntityTable.Choice.{
  Event, mount, render, apply, reset, open_columns, start, run, table_fields,
}
use testnexa.EntityTable.Choice.Kept.{view_run, view_of, run-IsRemembered}
use testnexa.Tests.Samples.{sample_config}

abbrev other_config : EntityConfig
other_config = record sample_config { resource = "plan"; path = "/plans" }

abbrev due_first : ColumnPreferences
due_first = record { v = 1; order = "due" ∷ "name" ∷ []; hidden = "status" ∷ [] }

-- A parser and a printer that agree on that choice.
abbrev print : Json → String
print value = "x"

abbrev parse : String → Option Json
parse text = if text == "x" then some (to_json due_first) else none

abbrev events : List Event
events =
    open_columns
    ∷ apply works due_first
    ∷ render works other_config
    ∷ apply throws due_first
    ∷ reset works
    ∷ render works sample_config
    ∷ mount works sample_config
    ∷ []

run-IsRemembered_example :
    (table_fields (run parse print events (start parse print works sample_config []))
      ≡ apply_column_preferences
          (default_table_fields
            (view_run events (view_of parse print works sample_config [])).config)
          (view_run events (view_of parse print works sample_config [])).chosen
          (locked_field_names
            (view_run events (view_of parse print works sample_config [])).config))
    × ((q : String)
        → stored parse print
            (run parse print events (start parse print works sample_config [])).storage
            q
          ≡ (view_run events (view_of parse print works sample_config [])).choices q)
run-IsRemembered_example = run-IsRemembered parse print events works sample_config [] (
  tt,
  (
    record { current = refl; full = refl; law = refl },
    (tt, (record { current = refl; full = refl; law = refl }, (tt, (tt, (tt, tt))))),
  ),
)

shown-due_first :
    (view_run events (view_of parse print works sample_config [])).chosen ≡ some due_first
shown-due_first = refl
