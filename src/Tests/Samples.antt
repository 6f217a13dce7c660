-- ===== src/Tests/Samples.antt =====
-- Fields and an entity, shared by the tests.
use testnexa.Base.{String, Bool, true, Option, none, some, List, [], ◌∷◌}
use testnexa.Entity.{FieldType, FieldConfig, EntityConfig, Method}

abbrev pub field_named : String → FieldType → Option Bool → FieldConfig
field_named name type required = record {
  name = name;
  label = name;
  type = type;
  required = required;
  values = none;
  badge_colors = none;
  ref_entity = none;
  label_field = none;
  show_in_table = none;
  sortable = none;
  filterable = none;
  read_only = none;
  select = none;
}

abbrev pub name_field : FieldConfig
name_field = field_named "name" FieldType.string (some true)

abbrev pub status_field : FieldConfig
status_field = field_named "status" FieldType.enum (some true)

abbrev pub due_field : FieldConfig
due_field = field_named "due" FieldType.date none

abbrev pub sample_fields : List FieldConfig
sample_fields = name_field ∷ status_field ∷ due_field ∷ []

abbrev pub sample_config : EntityConfig
sample_config = record {
  resource = "defect";
  path = "/defects";
  list_path = none;
  create_path = none;
  detail_path = none;
  detail_link_field = none;
  scope_field = none;
  scope_selector = none;
  scope_resolution = none;
  methods = Method.list ∷ [];
  fields = sample_fields;
  filter_fields = some ("name" ∷ "status" ∷ []);
  search_fields = none;
  relations = none;
  link_create = none;
  link_delete = none;
  compound_creates = none;
  child_compound_creates = none;
}
