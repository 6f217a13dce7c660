-- ===== src/FieldValues/Labels.antt =====
-- A cell of a foreign key shows the label of its own row.
use mathlib.Core.Path.{subst}
use testnexa.Base.{
  ◌≡◌, refl, ap, ◌∙◌, ℕ, zero, suc, String, Bool, true, false, ◌==◌, Option, none, some, List, [],
  ◌∷◌, map, filter, get_elem?, truthy, arith, eq_refl, eq_iff, Bool-cases, inl, inr, if◌then◌else◌,
}
use testnexa.Base.Names.{has, has-append, Distinct}
use testnexa.Base.Dict.{lookup, lookup-insert}
use testnexa.Base.Dedup.{dedup, has-dedup}
use testnexa.Entity.{FieldType, FieldConfig, EntityConfig, names_of}
use testnexa.Json.{Json, null, str, Fields, property}
use testnexa.Json.Text.{string_of}
use testnexa.FieldValues.{
  FkLabelMap, is_fk, is_fk_field, text_value, id_texts, label_text, label_value, label_of,
  ref_config, entries_of, add_field, resolve_fields, use_fk_labels, fk_text, plain, node_of,
  render_entity_field_value,
}

-- The property of a row that labels it: the one that the field names, or else its id.
abbrev pub label_key : Option String → String
label_key none = "id"
label_key (some name) = if name == "" then "id" else name

-- The text of a value, and the id where there is none.
abbrev pub label_or_id : String → Option Json → String
label_or_id id none = id
label_or_id id (some null) = id
label_or_id id (some (str s)) = s
label_or_id id (some v) = string_of v

-- What a cell has to show: the id where the request of the row has failed, and else what the row has
-- under the property that labels it.
abbrev pub expected_label : Option String → String → Option Fields → String
expected_label label_field id none = id
expected_label label_field id (some row) = label_or_id id (property (label_key label_field) row)

label_text-expected : (id : String) (o : Option Json) → label_text id o ≡ label_or_id id o
unfolding label_text string_of
label_text-expected id none = refl
label_text-expected id (some null) = refl
label_text-expected id (some (str s)) = refl
label_text-expected id (some _) = refl

label_value-expected :
    (label_field : Option String) (row : Fields)
    → label_value label_field row ≡ property (label_key label_field) row
unfolding label_value
label_value-expected none row = refl
label_value-expected (some name) row = elim (Bool-cases (name == "")) [
  | inl empty ↦ ground (arith, empty)
  | inr named ↦ ground (arith, named)
]

label_of-expected :
    (label_field : Option String) (id : String) (o : Option Fields)
    → label_of label_field id o ≡ expected_label label_field id o
unfolding label_of
label_of-expected label_field id none = refl
label_of-expected label_field id (some row) =
    rw (label_value-expected label_field row)
      (label_text-expected id (property (label_key label_field) row))

lookup-map :
    (label : String → String) (id : String) (ids : List String)
    → has ids id ≡ true
    → lookup id (map (λ i. (i, label i)) ids) ≡ some (label id)
lookup-map label id [] h = cc
lookup-map label id (i ∷ ids) h = ground (arith, h, eq_iff i id, lookup-map label id ids)

has-id_texts :
    (name id : String) (rows : List Fields) (i : ℕ) (row : Fields)
    → get_elem? rows i ≡ some row
    → property name row ≡ some (str id)
    → has (id_texts name rows) id ≡ true
unfolding id_texts text_value
has-id_texts name id [] i row e p = cc
has-id_texts name id (r ∷ rows) zero row e p =
    let same : r ≡ row = cc in rw (same, p) (ground (arith, eq_refl id))
has-id_texts name id (r ∷ rows) (suc i) row e p =
    rw (has-append (text_value (property name r)) (id_texts name rows) id)
      (ground (arith, has-id_texts name id rows i row e p))

is_fk-type : (type : FieldType) → is_fk type ≡ true → type ≡ FieldType.fk
unfolding is_fk
is_fk-type FieldType.fk h = refl
is_fk-type FieldType.string h = cc
is_fk-type FieldType.text h = cc
is_fk-type FieldType.enum h = cc
is_fk-type FieldType.date h = cc
is_fk-type FieldType.boolean h = cc

type_of_fk_field : (field : FieldConfig) → is_fk_field field ≡ true → field.type ≡ FieldType.fk
unfolding is_fk_field
type_of_fk_field field h = is_fk-type field.type (ground (arith, h))

fk_text-labelled :
    (labels : FkLabelMap) (name id : String) (entries : List (String × String)) (label : String)
    → truthy id ≡ true
    → lookup name labels ≡ some entries
    → lookup id entries ≡ some label
    → fk_text labels name (some (str id)) ≡ label
unfolding fk_text
fk_text-labelled labels name id entries label y l e = rw (y, l) (rw e refl)

has-names_of-filter :
    (p : FieldConfig → Bool) (fields : List FieldConfig) (name : String)
    → has (names_of fields) name ≡ false
    → has (names_of (filter p fields)) name ≡ false
has-names_of-filter p [] name h = h
has-names_of-filter p (f ∷ fields) name h = elim (Bool-cases (p f)) [
  | inl kept ↦ rw kept (ground (arith, h, has-names_of-filter p fields name))
  | inr dropped ↦ rw dropped (has-names_of-filter p fields name (ground (arith, h)))
]

module _ (configs : List (String × EntityConfig))
    (get_entity : EntityConfig → String → Option Fields) where
  -- A field of another name leaves the labels of this one alone.
  add_field-other :
      (o : Option EntityConfig) (field : FieldConfig) (rows : List Fields) (next : FkLabelMap)
      (name : String)
      → (field.name == name) ≡ false
      → lookup name (add_field configs get_entity o field rows next) ≡ lookup name next
  unfolding add_field
  add_field-other none field rows next name h = refl
  add_field-other (some config) field rows next name h = rw (lookup-insert, h) refl

  resolve_fields-other :
      (fields : List FieldConfig) (rows : List Fields) (next : FkLabelMap) (name : String)
      → has (names_of fields) name ≡ false
      → lookup name (resolve_fields configs get_entity fields rows next) ≡ lookup name next
  unfolding resolve_fields
  resolve_fields-other [] rows next name h = refl
  resolve_fields-other (f ∷ fields) rows next name h =
      resolve_fields-other fields rows _ name (ground (arith, h))
      ∙ add_field-other (ref_config configs f.ref_entity) f rows next name (ground (arith, h))

  module _ (rows : List Fields) (config : EntityConfig) where
    lookup-add_field :
        (o : Option EntityConfig) (f : FieldConfig) (next : FkLabelMap)
        → o ≡ some config
        → lookup f.name (add_field configs get_entity o f rows next)
          ≡ some (entries_of configs get_entity f config rows)
    unfolding add_field
    lookup-add_field o f next c = rw (c, lookup-insert, eq_refl) refl

    lookup-first :
        (f : FieldConfig) (fields : List FieldConfig) (next : FkLabelMap)
        → has (names_of fields) f.name ≡ false
        → is_fk_field f ≡ true
        → ref_config configs f.ref_entity ≡ some config
        → lookup f.name
            (resolve_fields configs get_entity (filter is_fk_field (f ∷ fields)) rows next)
          ≡ some (entries_of configs get_entity f config rows)
    unfolding resolve_fields add_field
    lookup-first f fields next d k c = rw k (
        resolve_fields-other (filter is_fk_field fields) rows _ f.name
          (has-names_of-filter is_fk_field fields f.name d)
        ∙ lookup-add_field (ref_config configs f.ref_entity) f next c)

    lookup-resolve_fields :
        (fields : List FieldConfig) (next : FkLabelMap) (i : ℕ) (field : FieldConfig)
        → Distinct (names_of fields)
        → get_elem? fields i ≡ some field
        → is_fk_field field ≡ true
        → ref_config configs field.ref_entity ≡ some config
        → lookup field.name
            (resolve_fields configs get_entity (filter is_fk_field fields) rows next)
          ≡ some (entries_of configs get_entity field config rows)
    unfolding resolve_fields
    lookup-resolve_fields [] next i field d e k c = cc
    lookup-resolve_fields (f ∷ fields) next zero field d e k c =
        let same : f ≡ field = cc in
        subst
          (λ g.
            lookup g.name
              (resolve_fields configs get_entity (filter is_fk_field (f ∷ fields)) rows next)
            ≡ some (entries_of configs get_entity g config rows))
          same (lookup-first f fields next d.0 (rw same k) (rw same c))
    lookup-resolve_fields (f ∷ fields) next (suc i) field d e k c =
        elim (Bool-cases (is_fk_field f)) [
          | inl kept ↦ rw kept (lookup-resolve_fields fields _ i field d.1 e k c)
          | inr dropped ↦ rw dropped (lookup-resolve_fields fields next i field d.1 e k c)
        ]

    -- The cell of a foreign key, in a table of fields with different names: when the schema of the
    -- referenced entity has arrived, and the row has an id there that is a text and not empty, the
    -- cell shows the id where the request for its row fails; else it shows what the row has under the
    -- label property of the field, its id property where the field names none, and the id in place of
    -- a value that is missing or null.
    pub render-use_fk_labels :
        (format : String → Option String) (stringify : Json → String) (of_table : EntityConfig)
        (linked : Bool) (fields : List FieldConfig) (i j : ℕ) (field : FieldConfig) (row : Fields)
        (id : String)
        → Distinct (names_of fields)
        → get_elem? fields i ≡ some field
        → is_fk_field field ≡ true
        → ref_config configs field.ref_entity ≡ some config
        → get_elem? rows j ≡ some row
        → property field.name row ≡ some (str id)
        → truthy id ≡ true
        → render_entity_field_value format stringify
            (use_fk_labels configs get_entity fields rows)
            of_table
            linked
            field
            row
          ≡ plain (expected_label field.label_field id (get_entity config id))
    unfolding render_entity_field_value use_fk_labels entries_of node_of
    render-use_fk_labels format stringify of_table linked fields i j field row id d e k c r v y =
        rw
          (
            type_of_fk_field field k,
            v,
            ← label_of-expected field.label_field id (get_entity config id),
          )
          (ap plain (
            fk_text-labelled (use_fk_labels configs get_entity fields rows) field.name id
              (entries_of configs get_entity field config rows)
              (label_of field.label_field id (get_entity config id)) y
              (lookup-resolve_fields fields [] i field d e k c)
              (lookup-map (λ n. label_of field.label_field n (get_entity config n)) id
                (dedup (id_texts field.name rows))
                (has-dedup (id_texts field.name rows) id
                  ∙ has-id_texts field.name id rows j row r v))))
