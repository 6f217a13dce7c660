-- ===== src/Admin/Scope/Picker.antt =====
-- The scope of a picker against the scope of a page.
use testnexa.Base.{
  String, ◌≡◌, refl, Bool, true, not, ◌&&◌, ◌||◌, Option, none, some, List, [], ◌∷◌, present,
  if◌then◌else◌,
}
use testnexa.Base.Names.{has}
use testnexa.Entity.{single, branching, EntityConfig}
use testnexa.Admin.Scope.{
  ResolvedScope, ready, waiting, arms, text_of, resolve_route, scope_of, scope_arms_of,
  use_entity_scope, picker_scope_params, AdminRouteContext,
}

-- The search that a picker may run in a scope: `none` where a selector has to come first.
abbrev pub params_of : Bool → ResolvedScope → Option (List (String × String))
params_of has_selector (ready none) = some []
params_of has_selector (ready (some (single field, value))) = some ((field, value) ∷ [])
params_of has_selector (ready (some (branching a b, value))) = none
params_of has_selector waiting = if has_selector then none else some []

-- The project decides, or the organisation does not: an arm is the project's and there is one, or no
-- arm is the organisation's that is there.
abbrev pub is_free_of_org : List String → Option String → Option String → Bool
is_free_of_org fields org project =
    has fields "project_id" && present project || not (has fields "org_id" && present org)

-- The page of an entity, with the organisation and the project that its context resolves.
abbrev pub page_scope : EntityConfig → AdminRouteContext → ResolvedScope
page_scope config context =
    use_entity_scope (some config) context.org_id context.project_id none none

-- An entity that is scoped to the organisation, without a selector of its own and with no project of
-- its own: once the organisation is known its page lists that organisation, while the picker searches
-- in all of them.
picker-unscoped :
    (config : EntityConfig) (context : AdminRouteContext)
    → config.scope_field ≡ some (single "org_id")
    → config.scope_selector ≡ none
    → present context.org_id ≡ true
    → (page_scope config context ≡ ready (some (single "org_id", text_of context.org_id)))
      × (picker_scope_params config context.project_id ≡ some [])
unfolding picker_scope_params use_entity_scope scope_arms_of scope_of arms resolve_route
picker-unscoped config context field selector org = rw (field, selector, org) (refl, refl)
