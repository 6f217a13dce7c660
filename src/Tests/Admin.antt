-- ===== src/Tests/Admin.antt =====
-- The schemas of concrete entities.
use testnexa.Base.{String, ◌≡◌, refl, false, Option, none, some, [], ◌∷◌, ◌==◌, if◌then◌else◌}
use testnexa.Base.Dict.{lookup}
use testnexa.Entity.{Method, EntityConfig, branching}
use testnexa.Admin.Scope.{AdminRouteContext, use_admin_route_context}
use testnexa.Tests.Samples.{sample_config}
use testnexa.Admin.Registry.{is_admin_entity_key, all_entities}
use testnexa.Admin.Schema.{
  EntitySchemaResponse, SchemaQuery, resolve_entity_key, use_entity_schema, use_entity_schemas,
}
use testnexa.Admin.Schema.Batch.{lookup-use_entity_schemas}

-- A name is completed to its slug, but not to one that the registry no longer has.
resolved_names :
    (resolve_entity_key "test-case" ≡ "test-cases")
    × (resolve_entity_key "projects" ≡ "projects")
    × (resolve_entity_key "test-condition" ≡ "test-condition")
unfolding resolve_entity_key is_admin_entity_key all_entities
resolved_names = (refl, refl, refl)

abbrev served : EntitySchemaResponse
served = record {
  resource = "defect";
  label = "Defects";
  methods = Method.list ∷ [];
  scope_field = none;
  scope_selector = none;
  scope_resolution = none;
  search_fields = [];
  filter_fields = [];
  fields = [];
  relations = none;
  link_create = none;
  link_delete = none;
  compound_creates = none;
  child_compound_creates = none;
}

abbrev held : Option String → SchemaQuery
held (some key) = record {
  response = if key == "defects" then some served else none;
  is_loading = false;
  is_error = false;
}
held none = record { response = none; is_loading = false; is_error = false }

lookup-use_entity_schemas_example :
    lookup (resolve_entity_key "defect") (use_entity_schemas held ("release" ∷ "defect" ∷ []))
    ≡ (use_entity_schema held (some "defect")).config
lookup-use_entity_schemas_example =
    lookup-use_entity_schemas held ("release" ∷ "defect" ∷ []) "defect" refl refl

abbrev scoped_config : EntityConfig
scoped_config = record sample_config { scope_field = some (branching "test_plan_id" "project_id") }

-- The page on a project's route, once the organisation of the project is fetched.
abbrev on_project : AdminRouteContext
on_project =
    use_admin_route_context
      (λ key. record { response = none; is_loading = false; is_error = false }) none
      (some "defects") none (some "p") (some "o")

retired : is_admin_entity_key "test-conditions" ≡ false
unfolding is_admin_entity_key all_entities
retired = refl
