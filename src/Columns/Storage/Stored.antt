-- ===== src/Columns/Storage/Stored.antt =====
-- What is read back from `localStorage` after it was written, cleared, or could not be used.
use testnexa.Base.{
  String, ◌≡◌, ◌≢◌, refl, ap, ◌↔◌, inl, inr, true, false, Option, none, some, List, [], ◌∷◌, arith,
  ◌==◌, eq_iff, truthy, filter, eq_refl, if◌then◌else◌, Option-cases, Bool-cases,
}
use testnexa.Base.Names.{Distinct}
use testnexa.Base.Dict.{lookup, lookup-insert}
use testnexa.Json.{
  Json, null, num, str, arr, obj, Items, nil, cons, Fields, property, texts_of, text_array,
  texts_of-text_array,
}
use testnexa.Entity.{FieldConfig, names_of}
use testnexa.Columns.{
  ColumnPreferences, ColumnPreferenceRow, column_preferences_version, fields_of, visible_of,
  apply_column_preferences, preferences_from_rows,
}
use testnexa.Columns.Storage.{
  column_preferences_key, is_string_array, both_lists, is_version, narrow, to_json, Access, works,
  throws, load_column_preferences, save_column_preferences, remove_item, clear_column_preferences,
}
use testnexa.Columns.Modal.{applied}
use testnexa.Columns.Editing.{IsEditable, apply_column_preferences-applied}
use text.Mathlib.TextLemmas.{append_cancel_left}

narrow-to_json :
    (p : ColumnPreferences) → p.v ≡ column_preferences_version → narrow (to_json p) ≡ some p
unfolding narrow to_json
narrow-to_json p e = rw (texts_of-text_array p.order, texts_of-text_array p.hidden) (ground arith)

text_array-texts_of :
    (items : Items) (ss : List String) → texts_of items ≡ some ss → items ≡ text_array ss
unfolding texts_of text_array
text_array-texts_of nil [] e = refl
text_array-texts_of nil (s ∷ ss) e = cc
text_array-texts_of (cons (str t) rest) ss e = elim (Option-cases (texts_of rest)) [
  | inl stuck ↦ ground arith
  | inr (tail, parsed) ↦
      let split : t ∷ tail ≡ ss = ground arith in
      rw (← split) (ap (cons (str t)) (text_array-texts_of rest tail parsed))
]
text_array-texts_of (cons _ rest) ss e = cc

-- Two keys are the same only for the same resource.
key_injective : (r q : String) → column_preferences_key r ≡ column_preferences_key q → r ≡ q
key_injective r q e = append_cancel_left "testnexa.column-prefs." r q e

pub keys_apart :
    (r q : String) → r ≢ q → (column_preferences_key r == column_preferences_key q) ≡ false
keys_apart r q apart = elim (Bool-cases (column_preferences_key r == column_preferences_key q)) [
  | inl same ↦ absurd (apart (key_injective r q ((eq_iff _ _).0 same)))
  | inr other ↦ other
]

version-applied :
    (draft : List ColumnPreferenceRow) → (applied draft).v ≡ column_preferences_version
unfolding applied preferences_from_rows
version-applied draft = refl

pub lookup-remove_item :
    (k j : String) (m : List (String × String))
    → lookup j (remove_item k m) ≡ (if k == j then none else lookup j m)
unfolding remove_item
lookup-remove_item k j [] = ground arith
lookup-remove_item k j ((i, v) ∷ m) =
    ground (arith, lookup-remove_item k j m, eq_iff k j, eq_iff i k, eq_iff i j)

is_version-inv : (o : Option Json) → is_version o ≡ true → o ≡ some (num column_preferences_version)
is_version-inv none h = cc
is_version-inv (some null) h = cc
is_version-inv (some (num n)) h =
    let e : n ≡ column_preferences_version = ground arith in ap (λ m. some (num m)) e
is_version-inv (some _) h = cc

is_string_array-inv :
    (o : Option Json) (ss : List String)
    → is_string_array o ≡ some ss
    → o ≡ some (arr (text_array ss))
unfolding is_string_array
is_string_array-inv none ss h = cc
is_string_array-inv (some null) ss h = cc
is_string_array-inv (some (arr items)) ss h =
    ap (λ i. some (arr i)) (text_array-texts_of items ss h)
is_string_array-inv (some _) ss h = cc

is_string_array-text_array :
    (ss : List String) → is_string_array (some (arr (text_array ss))) ≡ some ss
unfolding is_string_array
is_string_array-text_array ss = texts_of-text_array ss

both_lists-inv :
    (o h : Option (List String)) (p : ColumnPreferences)
    → both_lists o h ≡ some p
    → (o ≡ some p.order) × (h ≡ some p.hidden) × (p.v ≡ column_preferences_version)
unfolding both_lists
both_lists-inv none h p e = cc
both_lists-inv (some o) none p e = cc
both_lists-inv (some o) (some h) p e = ground arith

-- The narrowing accepts exactly the objects of the current version whose two lists are arrays of
-- texts, and returns those lists under that version; everything else is rejected as a whole.
narrow_iff :
    (fields : Fields) (p : ColumnPreferences)
    → (narrow (obj fields) ≡ some p) ↔ (
        (p.v ≡ column_preferences_version)
        × (property "v" fields ≡ some (num column_preferences_version))
        × (property "order" fields ≡ some (arr (text_array p.order)))
        × (property "hidden" fields ≡ some (arr (text_array p.hidden))))
unfolding narrow
narrow_iff fields p = (
  λ e.
      let current : is_version (property "v" fields) ≡ true = ground arith in
      let (order, hidden, version) =
        both_lists-inv (is_string_array (property "order" fields))
          (is_string_array (property "hidden" fields)) p (ground arith) in
      (
        version,
        is_version-inv (property "v" fields) current,
        is_string_array-inv (property "order" fields) p.order order,
        is_string_array-inv (property "hidden" fields) p.hidden hidden,
      ),
  λ (version, v, order, hidden).
      rw (v, order, hidden, is_string_array-text_array p.order, is_string_array-text_array p.hidden)
        (unfold both_lists in ground arith),
)

module _ (parse : String → Option Json) (stringify : Json → String) where
  -- A preference of the current version that was saved is loaded again, where `JSON.parse` reads
  -- back what `JSON.stringify` wrote for it and that text is not empty.
  pub load-save :
      (resource : String) (p : ColumnPreferences) (storage : List (String × String))
      → p.v ≡ column_preferences_version
      → truthy (stringify (to_json p)) ≡ true
      → parse (stringify (to_json p)) ≡ some (to_json p)
      → load_column_preferences parse stringify works
          (save_column_preferences parse stringify works resource p storage)
          resource
        ≡ some p
  unfolding load_column_preferences save_column_preferences
  load-save resource p storage current full law =
      let key = column_preferences_key resource in
      let read = lookup-insert key key (stringify (to_json p)) storage in
      rw (read, eq_refl key, full, law) (narrow-to_json p current)

  -- Saving or clearing one entity's preference, whether the storage works or throws, leaves what is
  -- loaded for every other entity.
  pub load_other :
      (resource other : String) (p : ColumnPreferences) (access reading : Access)
      (storage : List (String × String))
      → resource ≢ other
      → (load_column_preferences parse stringify reading
            (save_column_preferences parse stringify access resource p storage)
            other
          ≡ load_column_preferences parse stringify reading storage other)
        × (load_column_preferences parse stringify reading
              (clear_column_preferences access resource storage)
              other
            ≡ load_column_preferences parse stringify reading storage other)
  unfolding load_column_preferences save_column_preferences clear_column_preferences
  load_other resource other p access throws storage apart = (refl, refl)
  load_other resource other p throws works storage apart = (refl, refl)
  load_other resource other p works works storage apart =
      let key = column_preferences_key resource in
      let key' = column_preferences_key other in
      let apart_keys = keys_apart resource other apart in
      (
        rw (lookup-insert key key' (stringify (to_json p)) storage, apart_keys) refl,
        rw (lookup-remove_item key key' storage, apart_keys) refl,
      )

  -- What is applied in the dialog and saved under a working storage is what the table shows when
  -- it is loaded again: the ticked columns, in the order of the dialog.
  pub apply-load-save :
      (resource : String) (fields : List FieldConfig) (locked : List String)
      (draft : List ColumnPreferenceRow) (storage : List (String × String))
      → Distinct (names_of fields)
      → IsEditable fields locked draft
      → truthy (stringify (to_json (applied draft))) ≡ true
      → parse (stringify (to_json (applied draft))) ≡ some (to_json (applied draft))
      → apply_column_preferences fields
          (load_column_preferences parse stringify works
            (save_column_preferences parse stringify works resource (applied draft) storage)
            resource)
          locked
        ≡ fields_of (filter visible_of draft)
  apply-load-save resource fields locked draft storage d e full law =
      rw (load-save resource (applied draft) storage (version-applied draft) full law)
        (apply_column_preferences-applied fields locked draft d e)
