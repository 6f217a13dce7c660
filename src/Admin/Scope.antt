-- ===== src/Admin/Scope.antt =====
-- pages/admin/useEntityScope.ts, pages/admin/useAdminRouteContext.ts, and the two helpers on scopes of
-- container/entity-crud/EntityDetailPage/EntityRelationTab.tsx. The fetched row of a query has texts.
pub mod Picker
pub mod Known
use testnexa.Base.{
  String, Bool, true, false, not, ◌&&◌, ◌||◌, ◌==◌, Option, none, some, List, [], ◌∷◌, truthy,
  present, is_some, get_or, is_empty, if◌then◌else◌,
}
use testnexa.Base.Names.{has}
use testnexa.Base.Dict.{lookup}
use testnexa.Entity.{ScopeField, single, branching, ScopeSelector, ScopeResolution, EntityConfig}
use testnexa.Admin.Registry.{is_admin_entity_key, entity_label_by_key}
use testnexa.Admin.Schema.{SchemaQuery, EntitySchemaResult, use_entity_schema}

-- `scopeField` that is not falsy, as a list
arms : Option ScopeField → List String
arms none = []
arms (some (single field)) = if truthy field then field ∷ [] else []
arms (some (branching a b)) = a ∷ b ∷ []

unfoldable pub scope_arms_of : EntityConfig → List String
unfolding arms
scope_arms_of config = arms config.scope_field

-- `!config.scopeField`
abbrev pub is_unscoped : Option ScopeField → Bool
is_unscoped none = true
is_unscoped (some (single field)) = not (truthy field)
is_unscoped (some (branching a b)) = false

-- A scope that is resolved, with its field and value where there is one, or not yet.
pub data ResolvedScope : Type 0 where
  ready : Option (ScopeField × String) → ResolvedScope
  waiting : ResolvedScope

abbrev pub text_of : Option String → String
text_of o = get_or o "undefined"

-- `scopeResolution.viaField === "org_id" ? "org_id" : config.scopeField`
abbrev resolved_field : ScopeResolution → ScopeField → ScopeField
resolved_field resolution field =
    if resolution.via_field == "org_id" then single "org_id" else field

-- After the route: the resolution by a fetched row, and the selector.
resolve_later :
    Option ScopeResolution
    → Option ScopeSelector
    → ScopeField
    → Option (List (String × String))
    → Option (String × String)
    → ResolvedScope
resolve_later (some resolution) selector field none picked = waiting
resolve_later (some resolution) selector field (some row) picked =
    ready (some (resolved_field resolution field, text_of (lookup resolution.via_field row)))
resolve_later none (some selector) field row none = waiting
resolve_later none (some selector) field row (some (name, value)) =
    ready (some (single name, value))
resolve_later none none field row picked = waiting

-- From the arms of a scope on: the project, then the organisation of the route.
resolve_route : List String → Option String → Option String → ResolvedScope → ResolvedScope
resolve_route fields org_id project_id later =
    if has fields "project_id" && present project_id
    then ready (some (single "project_id", text_of project_id))
    else if has fields "org_id" && present org_id
    then ready (some (single "org_id", text_of org_id))
    else later

-- `useEntityScope`, of what it reads of the configuration.
scope_of :
    Option ScopeField
    → Option ScopeResolution
    → Option ScopeSelector
    → Option String
    → Option String
    → Option (List (String × String))
    → Option (String × String)
    → ResolvedScope
unfolding resolve_later resolve_route arms
scope_of none resolution selector org_id project_id row picked = ready none
scope_of (some field) resolution selector org_id project_id row picked =
    if is_unscoped (some field)
    then ready none
    else resolve_route (arms (some field)) org_id project_id
        (resolve_later resolution selector field row picked)

-- `routeParams.orgId` and `routeParams.projectId`, as `useAdminRouteContext` gives them: the
-- organisation is that of the route, or that of its project once it is fetched. `row` is what the
-- query holds, and `picked` what the selector has set.
unfoldable pub use_entity_scope :
    Option EntityConfig
    → Option String
    → Option String
    → Option (List (String × String))
    → Option (String × String)
    → ResolvedScope
unfolding scope_of
use_entity_scope none org_id project_id row picked = ready none
use_entity_scope (some config) org_id project_id row picked =
    scope_of config.scope_field config.scope_resolution config.scope_selector org_id project_id row
      picked

-- `null` is `none`.
unfoldable pub picker_scope_params : EntityConfig → Option String → Option (List (String × String))
unfolding scope_arms_of
picker_scope_params far_config project_id =
    let fields : List String = scope_arms_of far_config in
    if is_empty fields
    then some []
    else if has fields "project_id" && present project_id
    then some (("project_id", text_of project_id) ∷ [])
    else if is_some far_config.scope_selector
    then none
    else some []

pub record AdminRouteContext : Type 0 where
  pub entity_key : String
  pub config : Option EntityConfig
  pub label : Option String
  pub schema_label : Option String
  pub schema_loading : Bool
  pub org_id : Option String
  pub project_id : Option String

-- `a ?? b`
abbrev pub or_else : Option String → Option String → Option String
or_else none b = b
or_else (some a) b = some a

-- The parameters are those of the route; `fetched_org_id` is the `org_id` of the project that the
-- second query holds.
unfoldable pub use_admin_route_context :
    (Option String → SchemaQuery)
    → Option String
    → Option String
    → Option String
    → Option String
    → Option String
    → AdminRouteContext
unfolding use_entity_schema
use_admin_route_context queries override entity org_id project_id fetched_org_id =
    let key : String = get_or (or_else override entity) "" in
    let is_known : Bool = present override || is_admin_entity_key key in
    let schema : EntitySchemaResult =
      use_entity_schema queries (if is_known then some key else none) in
    record {
      entity_key = key;
      config = schema.config;
      label = entity_label_by_key key;
      schema_label = schema.label;
      schema_loading = schema.is_loading;
      org_id = or_else org_id fetched_org_id;
      project_id = project_id;
    }
