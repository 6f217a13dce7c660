-- ===== src/RelationTab/CreateLink/Rows.antt =====
-- container/entity-crud/EntityDetailPage/EntityRelationTab.tsx: the row that a creation answers with,
-- its id, and how it is named. An answer that is no object has no fields.
use testnexa.Base.{String, Option, none, some, truthy, if◌then◌else◌}
use testnexa.Json.Text.{string_of, is_blank}
use testnexa.Json.{Json, null, str, obj, Fields, end, property}

unfoldable pub row_of : Option Json → Fields
row_of (some (obj fields)) = fields
row_of _ = end

unfoldable pub non_empty : Option Json → Option String
non_empty (some (str s)) = if truthy s then some s else none
non_empty _ = none

-- `created?.id` where it is a text that is not empty
unfoldable pub id_of : Option Json → Option String
unfolding non_empty row_of
id_of created = non_empty (property "id" (row_of created))

-- `String(row.id ?? "")`
text_or_empty : Option Json → String
unfolding string_of
text_or_empty none = ""
text_or_empty (some null) = ""
text_or_empty (some v) = string_of v

label_or : Option Json → String → String
unfolding is_blank
label_or (some (str s)) id = if is_blank s then id else s
label_or _ id = id

labelled : Option String → Fields → Option Json
labelled none row = none
labelled (some label) row = if truthy label then property label row else none

unfoldable pub far_row_display : Fields → Option String → String
unfolding label_or labelled text_or_empty
far_row_display row label_field =
    label_or (labelled label_field row) (text_or_empty (property "id" row))
