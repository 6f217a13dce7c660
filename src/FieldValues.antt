-- ===== src/FieldValues.antt =====
-- pages/admin/useFkLabels.ts and components/molecules/entity-field-value: what a table and a detail page
-- show for the field of a row.
pub mod Labels
use Prim.Native.String.{[] as empty, ◌∷◌ as ◌:>◌}
use text.Mathlib.Text.{starts_with}
use testnexa.Base.{
  String, Bool, true, false, not, ◌&&◌, ◌==◌, Option, none, some, List, [], ◌∷◌, ◌++◌, ◌<>◌, map,
  filter, truthy, present, get_or, if◌then◌else◌,
}
use testnexa.Base.Dict.{insert, lookup}
use testnexa.Base.Dedup.{dedup}
use testnexa.Entity.{FieldType, FieldConfig, EntityConfig}
use testnexa.Json.{Json, null, str, arr, obj, Fields, property}
use testnexa.Json.Text.{string_of, is_truthy}
use testnexa.Admin.Schema.{resolve_entity_key}

-- `{ fieldName: { fkId: resolvedLabel } }`
abbrev pub FkLabelMap : Type 0
FkLabelMap = List (String × List (String × String))

is_fk : FieldType → Bool
is_fk FieldType.fk = true
is_fk _ = false

-- `f.type === "fk" && f.refEntity`
unfoldable pub is_fk_field : FieldConfig → Bool
unfolding is_fk
is_fk_field field = is_fk field.type && present field.ref_entity

-- The text of a value that is one.
unfoldable pub text_value : Option Json → List String
text_value (some (str s)) = s ∷ []
text_value _ = []

-- `rows.map((row) => row[field.name]).filter((v) => typeof v === "string")`
unfoldable pub id_texts : String → List Fields → List String
unfolding text_value
id_texts name [] = []
id_texts name (row ∷ rows) = text_value (property name row) ++ id_texts name rows

-- `label === null || label === undefined ? id : String(label)`
unfoldable pub label_text : String → Option Json → String
label_text id none = id
label_text id (some null) = id
label_text id (some v) = string_of v

-- `field.labelField ? row[field.labelField] : row.id`
unfoldable pub label_value : Option String → Fields → Option Json
label_value none row = property "id" row
label_value (some name) row = if truthy name then property name row else property "id" row

-- The label of an id, by the answer for its row.
unfoldable pub label_of : Option String → String → Option Fields → String
unfolding label_text label_value
label_of label_field id none = id
label_of label_field id (some row) = label_text id (label_value label_field row)

-- `field.refEntity ? refConfigs[resolveEntityKey(field.refEntity)] : undefined`
unfoldable pub ref_config : List (String × EntityConfig) → Option String → Option EntityConfig
ref_config configs none = none
ref_config configs (some key) = if truthy key then lookup (resolve_entity_key key) configs else none

-- The schemas that have arrived, and the answer to the request of a row, `none` where it fails.
module _ (configs : List (String × EntityConfig))
    (get_entity : EntityConfig → String → Option Fields) where
  unfoldable pub entries_of : FieldConfig → EntityConfig → List Fields → List (String × String)
  unfolding label_of id_texts
  entries_of field config rows =
      map (λ id. (id, label_of field.label_field id (get_entity config id)))
        (dedup (id_texts field.name rows))

  unfoldable pub add_field :
      Option EntityConfig → FieldConfig → List Fields → FkLabelMap → FkLabelMap
  unfolding entries_of
  add_field none field rows next = next
  add_field (some config) field rows next = insert field.name (entries_of field config rows) next

  -- The loop of `resolve`.
  unfoldable pub resolve_fields : List FieldConfig → List Fields → FkLabelMap → FkLabelMap
  unfolding add_field ref_config
  resolve_fields [] rows next = next
  resolve_fields (field ∷ fields) rows next =
      resolve_fields fields rows (add_field (ref_config configs field.ref_entity) field rows next)

  -- What the hook gives once its requests are answered.
  unfoldable pub use_fk_labels : List FieldConfig → List Fields → FkLabelMap
  unfolding resolve_fields is_fk_field
  use_fk_labels label_fields rows = resolve_fields (filter is_fk_field label_fields) rows []

-- What a cell renders.
pub data Node : Type 0 where
  plain : String → Node
  badge : String → String → Node
  -- a path, and the text of the link
  link : String → String → Node

-- What stands behind the `id` of a placeholder.
after_id : String → String
after_id (i :> (d :> s)) = s
after_id _ = ""

-- `template.replace(":id", String(id))`, for an id that has no `$`
unfoldable pub interpolate_detail_path : String → String → String
unfolding after_id
interpolate_detail_path empty id = ""
interpolate_detail_path (c :> s) id = elim (starts_with (c :> s) ":id") [
  | true ↦ id <> after_id s
  | false ↦ (c :> "") <> interpolate_detail_path s id
]

-- The case of a foreign key.
unfoldable pub fk_text : FkLabelMap → String → Option Json → String
fk_text labels name (some (str id)) =
    if truthy id then get_or (lookup id (get_or (lookup name labels) [])) id else "—"
fk_text labels name _ = "—"

-- `raw === null || raw === undefined || raw === ""`
is_missing : Option Json → Bool
is_missing none = true
is_missing (some null) = true
is_missing (some (str s)) = not (truthy s)
is_missing (some v) = false

some_truthy : Option Json → Bool
some_truthy none = false
some_truthy (some v) = is_truthy v

value_text : Option Json → String
value_text none = "undefined"
value_text (some v) = string_of v

boolean_badge : Bool → Node
boolean_badge true = badge "success" "Yes"
boolean_badge false = badge "secondary" "No"

badge_color : Option (List (String × String)) → String → String
badge_color none value = "secondary"
badge_color (some colors) value = get_or (lookup value colors) "secondary"

unfoldable pub enum_node : FieldConfig → Option Json → Node
unfolding is_missing badge_color value_text
enum_node field raw =
    if is_missing raw
    then plain "—"
    else badge (badge_color field.badge_colors (value_text raw)) (value_text raw)

is_link_field : Option String → String → Bool
is_link_field none name = false
is_link_field (some linked) name = linked == name

-- `format` is what Intl makes of a date, with `none` for a text that is no date, and `stringify` is
-- `JSON.stringify`.
module _ (format : String → Option String) (stringify : Json → String) where
  unfoldable pub format_date : Option Json → String
  unfolding some_truthy value_text
  format_date raw =
      if some_truthy raw then get_or (format (value_text raw)) (value_text raw) else "—"

  unfoldable pub display_value : Option Json → String
  display_value none = "—"
  display_value (some null) = "—"
  display_value (some (str s)) = if truthy s then s else "—"
  display_value (some (arr items)) = stringify (arr items)
  display_value (some (obj fields)) = stringify (obj fields)
  display_value (some v) = string_of v

  detail_node : Option String → Option Json → String → Node
  unfolding interpolate_detail_path
  detail_node none id shown = plain shown
  detail_node (some path) none shown = plain shown
  detail_node (some path) (some id) shown =
      if truthy path && not (shown == "—")
      then link (interpolate_detail_path path (string_of id)) shown
      else plain shown

  module _ (labels : FkLabelMap) (config : EntityConfig) (link_detail_field : Bool) where
    default_node : FieldConfig → Fields → Node
    unfolding display_value detail_node is_link_field
    default_node field row =
        let shown = display_value (property field.name row) in
        if link_detail_field && is_link_field config.detail_link_field field.name
        then detail_node config.detail_path (property "id" row) shown
        else plain shown

    node_of : FieldType → FieldConfig → Fields → Node
    unfolding fk_text boolean_badge format_date enum_node default_node some_truthy
    node_of FieldType.fk field row = plain (fk_text labels field.name (property field.name row))
    node_of FieldType.boolean field row = boolean_badge (some_truthy (property field.name row))
    node_of FieldType.date field row = plain (format_date (property field.name row))
    node_of FieldType.enum field row = enum_node field (property field.name row)
    node_of _ field row = default_node field row

    unfoldable pub render_entity_field_value : FieldConfig → Fields → Node
    unfolding node_of
    render_entity_field_value field row = node_of field.type field row
