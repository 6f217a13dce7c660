-- ===== src/Admin/Overrides.antt =====
-- entityConfigs/overrides.ts: the route wiring that stays in the frontend.
use testnexa.Base.{
  String, Bool, true, false, ◌==◌, Option, none, some, [], ◌∷◌, ◌<>◌, if◌then◌else◌,
}
use testnexa.Entity.{
  FieldType, FieldConfig, single, EntityConfig, list, get, create, fk, string, date,
}

abbrev pub path_for : String → String
path_for entity_key = "/" <> entity_key

-- `Pick<EntityConfig, "listPath" | "createPath" | "detailPath" | "detailLinkField">`
pub record RouteOverride : Type 0 where
  pub list_path : Option String
  pub create_path : Option String
  pub detail_path : Option String
  pub detail_link_field : Option String

-- `ROUTE_OVERRIDES[key]`
unfoldable pub route_overrides : String → Option RouteOverride
route_overrides key =
    if key == "releases"
    then some (record {
      list_path = some "/projects/:projectId/releases";
      create_path = some "/projects/:projectId/releases";
      detail_path = none;
      detail_link_field = none;
    })
    else if key == "projects"
    then some (record {
      list_path = none;
      create_path = some "/orgs/:orgId/projects";
      detail_path = some "/projects/:id";
      detail_link_field = some "name";
    })
    else none

static_field : String → String → FieldType → Option Bool → FieldConfig
static_field name label type required = record {
  name = name;
  label = label;
  type = type;
  required = required;
  values = none;
  badge_colors = none;
  ref_entity = none;
  label_field = none;
  show_in_table = none;
  sortable = some false;
  filterable = none;
  read_only = none;
  select = none;
}

-- `STATIC_ENTITY_CONFIGS.releases`
releases_config : EntityConfig
unfolding static_field
releases_config = record {
  resource = "release";
  path = "/releases";
  list_path = some "/projects/:projectId/releases";
  create_path = some "/projects/:projectId/releases";
  detail_path = none;
  detail_link_field = none;
  scope_field = some (single "project_id");
  scope_selector = none;
  scope_resolution = none;
  methods = list ∷ get ∷ create ∷ [];
  fields =
      (record (static_field "project_id" "Project" fk (some true)) {
        ref_entity = some "project";
        label_field = some "name";
        read_only = some true;
      })
      ∷ static_field "version_label" "Version label" string (some true)
      ∷ static_field "target_date" "Target date" date none
      ∷ [];
  filter_fields = none;
  search_fields = none;
  relations = none;
  link_create = none;
  link_delete = none;
  compound_creates = none;
  child_compound_creates = none;
}

-- `STATIC_ENTITY_CONFIGS[key]`
unfoldable pub static_entity_configs : String → Option EntityConfig
unfolding releases_config
static_entity_configs key = if key == "releases" then some releases_config else none
