-- ===== src/EntityTable/Choice.antt =====
-- components/organisms/entity-table/entity-table.tsx: the state of the table with the choice of its
-- columns, its handlers, and what can happen to it.
pub mod Kept
use testnexa.Base.{
  String, Bool, true, false, ◌==◌, Option, none, some, List, [], ◌∷◌, if◌then◌else◌,
}
use testnexa.Json.{Json}
use testnexa.Entity.{FieldConfig, EntityConfig}
use testnexa.Columns.{
  ColumnPreferences, ColumnPreferenceRow, default_table_fields, locked_field_names,
  apply_column_preferences, to_preference_rows,
}
use testnexa.Columns.Storage.{
  Access, load_column_preferences, save_column_preferences, clear_column_preferences,
}

-- The state, with the entity of the last render and the storage of the browser.
pub record Table : Type 0 where
  pub config : EntityConfig
  pub preferences_resource : String
  pub preferences : Option ColumnPreferences
  pub show_column_preferences : Bool
  pub show_filter_modal : Bool
  pub storage : List (String × String)

unfoldable pub table_fields : Table → List FieldConfig
table_fields t =
    apply_column_preferences (default_table_fields t.config) t.preferences
      (locked_field_names t.config)

unfoldable pub preference_rows : Table → List ColumnPreferenceRow
preference_rows t =
    to_preference_rows (default_table_fields t.config) t.preferences (locked_field_names t.config)

-- What happens to the table; an `Access` is whether the storage works at that time.
pub data Event : Type 0 where
  mount render : Access → EntityConfig → Event
  apply : Access → ColumnPreferences → Event
  reset : Access → Event
  open_columns close_columns open_filter close_filter : Event

module _ (parse : String → Option Json) (stringify : Json → String) where
  -- The first render, over what the storage has by then.
  unfoldable pub start : Access → EntityConfig → List (String × String) → Table
  start access config storage = record {
    config = config;
    preferences_resource = config.resource;
    preferences = load_column_preferences parse stringify access storage config.resource;
    show_column_preferences = false;
    show_filter_modal = false;
    storage = storage;
  }

  -- A later render: the state is adjusted where the entity is another one.
  unfoldable pub render_with : Access → EntityConfig → Table → Table
  render_with access config t =
      if t.preferences_resource == config.resource then record t { config = config } else record t {
        config = config;
        preferences_resource = config.resource;
        preferences = load_column_preferences parse stringify access t.storage config.resource;
        show_column_preferences = false;
      }

  unfoldable pub handle_apply_column_preferences : Access → ColumnPreferences → Table → Table
  handle_apply_column_preferences access next t = record t {
    storage = save_column_preferences parse stringify access t.config.resource next t.storage;
    preferences = some next;
    show_column_preferences = false;
  }

  unfoldable pub handle_reset_column_preferences : Access → Table → Table
  handle_reset_column_preferences access t = record t {
    storage = clear_column_preferences access t.config.resource t.storage;
    preferences = none;
    show_column_preferences = false;
  }

  unfoldable pub step : Event → Table → Table
  unfolding start render_with handle_apply_column_preferences handle_reset_column_preferences
  step (mount access config) t = start access config t.storage
  step (render access config) t = render_with access config t
  step (apply access next) t = handle_apply_column_preferences access next t
  step (reset access) t = handle_reset_column_preferences access t
  step open_columns t = record t { show_column_preferences = true }
  step close_columns t = record t { show_column_preferences = false }
  step open_filter t = record t { show_filter_modal = true }
  step close_filter t = record t { show_filter_modal = false }

  unfoldable pub run : List Event → Table → Table
  unfolding step
  run [] t = t
  run (e ∷ es) t = run es (step e t)
