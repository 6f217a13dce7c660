-- ===== src/EntityTable/Choice/Kept.antt =====
-- The choice of columns outlives the table and is each entity's own.
use testnexa.Base.{
  String, ◌≡◌, refl, ◌∙◌, ap, inl, inr, Option, none, some, List, [], ◌∷◌, ◌==◌, eq_iff,
  if◌then◌else◌, Bool-cases,
}
use testnexa.Json.{Json}
use testnexa.Entity.{EntityConfig}
use testnexa.Columns.{
  ColumnPreferences, default_table_fields, locked_field_names, apply_column_preferences,
}
use testnexa.Columns.Storage.{Access, load_column_preferences}
use testnexa.Columns.Storage.Kept.{
  Choices, read, write, IsStorable, stored, load-read, stored-save, stored-clear,
}
use testnexa.EntityTable.Choice.{
  Table, table_fields, Event, mount, render, apply, reset, open_columns, close_columns, open_filter,
  close_filter, start, render_with, handle_apply_column_preferences,
  handle_reset_column_preferences, step, run,
}

-- What the table promises: a choice for each entity, and the one that is shown.
pub record View : Type 0 where
  pub config : EntityConfig
  pub choices : Choices
  pub chosen : Option ColumnPreferences

abbrev visit : Access → EntityConfig → View → View
visit access config v = record v { config = config; chosen = read access v.choices config.resource }

abbrev choose : Access → Option ColumnPreferences → View → View
choose access choice v = record v {
  choices = write access v.config.resource choice v.choices;
  chosen = choice;
}

abbrev view_step : Event → View → View
view_step (mount access config) v = visit access config v
view_step (render access config) v =
    if v.config.resource == config.resource
    then record v { config = config }
    else visit access config v
view_step (apply access next) v = choose access (some next) v
view_step (reset access) v = choose access none v
view_step _ v = v

abbrev pub view_run : List Event → View → View
view_run [] v = v
view_run (e ∷ es) v = view_run es (view_step e v)

module _ (parse : String → Option Json) (stringify : Json → String) where
  abbrev IsKept : Event → Type 0
  IsKept (apply access next) = IsStorable parse stringify next
  IsKept _ = Unit

  -- Every choice that is applied survives being stored.
  abbrev pub AreKept : List Event → Type 0
  AreKept [] = Unit
  AreKept (e ∷ es) = IsKept e × AreKept es

  record Matches (t : Table) (v : View) : Type 0 where
    config : t.config ≡ v.config
    resource : t.preferences_resource ≡ v.config.resource
    chosen : t.preferences ≡ v.chosen
    choices : (q : String) → stored parse stringify t.storage q ≡ v.choices q

  read_eq :
      (access : Access) (f g : Choices) (q : String) → f q ≡ g q → read access f q ≡ read access g q
  read_eq Access.works f g q e = e
  read_eq Access.throws f g q e = refl

  write_eq :
      (access : Access) (r q : String) (choice : Option ColumnPreferences) (f g : Choices)
      → f q ≡ g q
      → write access r choice f q ≡ write access r choice g q
  write_eq Access.works r q choice f g e = rw e refl
  write_eq Access.throws r q choice f g e = e

  loaded :
      (access : Access) (q : String) {t : Table} {v : View}
      → Matches t v
      → load_column_preferences parse stringify access t.storage q ≡ read access v.choices q
  loaded access q {t} {v} m =
      load-read parse stringify access t.storage q
      ∙ read_eq access (stored parse stringify t.storage) v.choices q (m.choices q)

  start-Matches :
      (access : Access) (config : EntityConfig) {t : Table} {v : View}
      → Matches t v
      → Matches (start parse stringify access config t.storage) (visit access config v)
  unfolding start
  start-Matches access config m = record {
    config = refl;
    resource = refl;
    chosen = loaded access config.resource m;
    choices = m.choices;
  }

  render-Matches :
      (access : Access) (config : EntityConfig) (t : Table) (v : View)
      → Matches t v
      → Matches (render_with parse stringify access config t) (view_step (render access config) v)
  unfolding render_with
  render-Matches access config t v m = elim (Bool-cases (v.config.resource == config.resource)) [
    | inl same ↦
        rw (m.resource, same)
          (record {
            config = refl;
            resource = (eq_iff v.config.resource config.resource).0 same;
            chosen = m.chosen;
            choices = m.choices;
          })
    | inr other ↦
        rw (m.resource, other)
          (record {
            config = refl;
            resource = refl;
            chosen = loaded access config.resource m;
            choices = m.choices;
          })
  ]

  step-Matches :
      (e : Event) (t : Table) (v : View)
      → IsKept e
      → Matches t v
      → Matches (step parse stringify e t) (view_step e v)
  unfolding step handle_apply_column_preferences handle_reset_column_preferences
  step-Matches (mount access config) t v fits m = start-Matches access config m
  step-Matches (render access config) t v fits m = render-Matches access config t v m
  step-Matches (apply access next) t v fits m = record {
    config = m.config;
    resource = m.resource;
    chosen = refl;
    choices = λ q.
        stored-save parse stringify access t.config.resource q next t.storage fits
        ∙ write_eq access t.config.resource q (some next) (stored parse stringify t.storage)
            v.choices (m.choices q)
        ∙ ap (λ c. write access (c.resource) (some next) v.choices q) m.config;
  }
  step-Matches (reset access) t v fits m = record {
    config = m.config;
    resource = m.resource;
    chosen = refl;
    choices = λ q.
        stored-clear parse stringify access t.config.resource q t.storage
        ∙ write_eq access t.config.resource q none (stored parse stringify t.storage) v.choices
            (m.choices q)
        ∙ ap (λ c. write access (c.resource) none v.choices q) m.config;
  }
  step-Matches open_columns t v fits m = record {
    config = m.config;
    resource = m.resource;
    chosen = m.chosen;
    choices = m.choices;
  }
  step-Matches close_columns t v fits m = record {
    config = m.config;
    resource = m.resource;
    chosen = m.chosen;
    choices = m.choices;
  }
  step-Matches open_filter t v fits m = record {
    config = m.config;
    resource = m.resource;
    chosen = m.chosen;
    choices = m.choices;
  }
  step-Matches close_filter t v fits m = record {
    config = m.config;
    resource = m.resource;
    chosen = m.chosen;
    choices = m.choices;
  }

  run-Matches :
      (es : List Event) (t : Table) (v : View)
      → AreKept es
      → Matches t v
      → Matches (run parse stringify es t) (view_run es v)
  unfolding run
  run-Matches [] t v fits m = m
  run-Matches (e ∷ es) t v (fit, fits) m =
      run-Matches es (step parse stringify e t) (view_step e v) fits (step-Matches e t v fit m)

  abbrev pub view_of : Access → EntityConfig → List (String × String) → View
  view_of access config storage = record {
    config = config;
    choices = stored parse stringify storage;
    chosen = read access (stored parse stringify storage) config.resource;
  }

  -- Over any run of renders, remounts, applied choices and resets, each with a storage that works
  -- or throws, the table shows the columns of the choice that a map from entities to choices would
  -- give: a working apply or reset writes the entry of the entity that is shown, another entity and
  -- a remount read theirs, and what is applied is shown even where it could not be saved. The
  -- storage holds exactly that map. The hypothesis is on the choices that are applied: they have
  -- the current version, and `JSON.parse` reads them back from a text that is not empty.
  pub run-IsRemembered :
      (es : List Event) (access : Access) (config : EntityConfig) (storage : List (String × String))
      → AreKept es
      → (let t = run parse stringify es (start parse stringify access config storage) in
          let v = view_run es (view_of access config storage) in
          (table_fields t
            ≡ apply_column_preferences
                (default_table_fields v.config)
                v.chosen
                (locked_field_names v.config))
          × ((q : String) → stored parse stringify t.storage q ≡ v.choices q))
  unfolding table_fields
  run-IsRemembered es access config storage fits =
      let first : Matches (start parse stringify access config storage)
          (view_of access config storage) =
        unfold start in
        record {
          config = refl;
          resource = refl;
          chosen = load-read parse stringify access storage config.resource;
          choices = λ q. refl;
        } in
      let m =
        run-Matches es (start parse stringify access config storage) (view_of access config storage)
          fits first in
      (rw (m.config, m.chosen) refl, m.choices)
