-- ===== src/Admin/Schema.antt =====
-- pages/admin/useEntitySchema.ts and lib/api/entitySchema.ts: the configuration of an entity, from the
-- schema that the backend serves. A query of react-query is what it holds for a key.
use testnexa.Base.{
  String, Bool, true, false, not, ◌&&◌, Option, none, some, List, [], ◌∷◌, ◌<>◌, map, truthy,
  present, is_some, get_or, if◌then◌else◌,
}
use testnexa.Base.Dedup.{dedup}
pub mod Resolved
pub mod Batch
use testnexa.Base.Dict.{insert}
use testnexa.Entity.{
  FieldType, FieldConfig, ScopeField, ScopeSelector, ScopeResolution, Method, EntityRelation,
  LinkCreateAction, LinkDeleteAction, CompoundCreateAction, EntityConfig,
}
use testnexa.Admin.Registry.{is_admin_entity_key}
use testnexa.Admin.Overrides.{path_for, RouteOverride, route_overrides, static_entity_configs}

pub record BackendFieldConfig : Type 0 where
  pub name : String
  pub label : String
  pub type : FieldType
  pub required : Bool
  pub show_in_table : Bool
  pub sortable : Bool
  pub values : Option (List String)
  pub ref_entity : Option String
  pub label_field : Option String
  pub badge_colors : Option (List (String × String))
  pub read_only : Option Bool
  pub select : Option Bool

-- An optional key that is `null` counts as absent where the code does not tell the two apart.
pub record EntitySchemaResponse : Type 0 where
  pub resource : String
  pub label : String
  pub methods : List Method
  pub scope_field : Option ScopeField
  pub scope_selector : Option ScopeSelector
  pub scope_resolution : Option ScopeResolution
  pub search_fields : List String
  pub filter_fields : List String
  pub fields : List BackendFieldConfig
  pub relations : Option (List EntityRelation)
  pub link_create : Option LinkCreateAction
  pub link_delete : Option LinkDeleteAction
  pub compound_creates : Option (List CompoundCreateAction)
  pub child_compound_creates : Option (List CompoundCreateAction)

-- A served field, at the type of a configured one.
abbrev field_config_of : BackendFieldConfig → FieldConfig
field_config_of f = record {
  name = f.name;
  label = f.label;
  type = f.type;
  required = some f.required;
  values = f.values;
  badge_colors = f.badge_colors;
  ref_entity = f.ref_entity;
  label_field = f.label_field;
  show_in_table = some f.show_in_table;
  sortable = some f.sortable;
  filterable = none;
  read_only = f.read_only;
  select = f.select;
}

unfoldable pub resolve_entity_key : String → String
resolve_entity_key key =
    if is_admin_entity_key key
    then key
    else if is_admin_entity_key (key <> "s")
    then key <> "s"
    else key

-- The entry of an override, where there is one.
abbrev override_of : (RouteOverride → Option String) → Option RouteOverride → Option String
override_of f none = none
override_of f (some o) = f o

unfoldable pub to_entity_config : String → EntitySchemaResponse → EntityConfig
unfolding route_overrides
to_entity_config key schema = record {
  resource = schema.resource;
  path = path_for key;
  list_path = override_of (λ o. o.list_path) (route_overrides key);
  create_path = override_of (λ o. o.create_path) (route_overrides key);
  detail_path = override_of (λ o. o.detail_path) (route_overrides key);
  detail_link_field = override_of (λ o. o.detail_link_field) (route_overrides key);
  scope_field = schema.scope_field;
  scope_selector = schema.scope_selector;
  scope_resolution = schema.scope_resolution;
  methods = schema.methods;
  fields = map field_config_of schema.fields;
  filter_fields = some schema.filter_fields;
  search_fields = some schema.search_fields;
  relations = some (get_or schema.relations []);
  link_create = schema.link_create;
  link_delete = schema.link_delete;
  compound_creates = some (get_or schema.compound_creates []);
  child_compound_creates = some (get_or schema.child_compound_creates []);
}

pub record SchemaQuery : Type 0 where
  -- `data`
  pub response : Option EntitySchemaResponse
  pub is_loading : Bool
  pub is_error : Bool

pub record EntitySchemaResult : Type 0 where
  pub config : Option EntityConfig
  pub label : Option String
  pub is_loading : Bool
  pub is_error : Bool

-- `key ? STATIC_ENTITY_CONFIGS[key] : undefined`
static_config_of : Option String → Option EntityConfig
static_config_of none = none
static_config_of (some key) = if truthy key then static_entity_configs key else none

-- `query.data && key ? toEntityConfig(key, query.data) : undefined`
fetched_config_of : Option String → Option EntitySchemaResponse → Option EntityConfig
fetched_config_of (some key) (some response) =
    if truthy key then some (to_entity_config key response) else none
fetched_config_of _ _ = none

-- `entityKey ? resolveEntityKey(entityKey) : undefined`
unfoldable pub key_of : Option String → Option String
unfolding resolve_entity_key
key_of none = none
key_of (some entity_key) = if truthy entity_key then some (resolve_entity_key entity_key) else none

label_of : Option EntityConfig → Option EntitySchemaResponse → Option String
label_of (some c) response = none
label_of none none = none
label_of none (some response) = some response.label

module _ (queries : Option String → SchemaQuery) where
  unfoldable pub use_entity_schema : Option String → EntitySchemaResult
  unfolding key_of static_config_of fetched_config_of label_of
  use_entity_schema entity_key =
      let key : Option String = key_of entity_key in
      let static_config : Option EntityConfig = static_config_of key in
      let query : SchemaQuery = queries key in
      record {
        config = elim static_config [
          | some c ↦ some c
          | none ↦ fetched_config_of key query.response
        ];
        label = label_of static_config query.response;
        is_loading = present key && not (is_some static_config) && query.is_loading;
        is_error = query.is_error;
      }

  -- One key of the loop of `useEntitySchemas`.
  fill_one : String → List (String × EntityConfig) → List (String × EntityConfig)
  unfolding static_entity_configs to_entity_config
  fill_one key out = elim (static_entity_configs key) [
    | some c ↦ insert key c out
    | none ↦ elim (queries (some key)).response [
      | some response ↦ insert key (to_entity_config key response) out
      | none ↦ out
    ]
  ]

  fill : List String → List (String × EntityConfig) → List (String × EntityConfig)
  unfolding fill_one
  fill [] out = out
  fill (key ∷ keys) out = fill keys (fill_one key out)

  unfoldable pub use_entity_schemas : List String → List (String × EntityConfig)
  unfolding fill resolve_entity_key
  use_entity_schemas entity_keys = fill (dedup (map resolve_entity_key entity_keys)) []
