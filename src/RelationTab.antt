-- ===== src/RelationTab.antt =====
-- container/entity-crud/EntityDetailPage/EntityRelationTab.tsx: the requests of a relation tab, the
-- gates of its actions, and the sort of its list.
pub mod CreateLink
pub mod Sorting
pub mod Dialogs
use Prim.Native.String.{[] as empty, ◌∷◌ as ◌:>◌}
use testnexa.Base.{
  ℕ, String, Bool, true, false, not, ◌&&◌, ◌||◌, ◌==◌, Option, none, some, List, [], ◌∷◌, ◌<>◌,
  truthy, present, is_some, get_or, any, find?, map, if◌then◌else◌,
}
use testnexa.Base.Names.{has}
use testnexa.Entity.{
  FieldConfig, RelationKind, one_to_many, many_to_many, EntityRelation, LinkCreateAction,
  LinkDeleteAction, CompoundCreateAction, Method, EntityConfig,
}
use testnexa.EntityCrud.{is_open, is_close, is_word}
use testnexa.Session.Permissions.{MyPermissionsResponse, has as has_permission}
use testnexa.Admin.Scope.{scope_arms_of, picker_scope_params}

unfoldable pub hide_scope_column : EntityConfig → String → EntityConfig
hide_scope_column config scope_field = record config {
  fields =
      map
        (λ field.
          if field.name == scope_field then record field { show_in_table = some false } else field)
        config.fields;
}

-- The parameters of the route are the project and the organisation.
unfoldable pub admin_base_path : Option String → Option String → String
admin_base_path project_id org_id =
    if present project_id
    then "/projects/" <> get_or project_id "" <> "/admin"
    else "/orgs/" <> get_or org_id "undefined" <> "/admin"

-- The names in the matches of `/\{([a-zA-Z_]+)\}/g`, from a place in the template on, behind a brace
-- and letters or not.
placeholders : Option String → String → List String
placeholders o empty = []
placeholders none (c :> s) = elim (is_open c) [
  | true ↦ placeholders (some "") s
  | false ↦ placeholders none s
]
placeholders (some name) (c :> s) = elim (is_word c) [
  | true ↦ placeholders (some (name <> (c :> ""))) s
  | false ↦ elim (is_close c && not (name == "")) [
    | true ↦ name ∷ placeholders none s
    | false ↦ elim (is_open c) [ true ↦ placeholders (some "") s | false ↦ placeholders none s ]
  ]
]

-- The only name, `null` where there is none or there are more.
only : List String → Option String
only [] = none
only (name ∷ []) = some name
only (name ∷ other ∷ names) = none

unfoldable pub compound_parent_field : CompoundCreateAction → Option String
unfolding placeholders only
compound_parent_field action = only (placeholders none action.path_template)

unfoldable pub compound_parent_scope_params :
    EntityConfig → EntityRelation → String → Option String → Option (List (String × String))
compound_parent_scope_params parent_config relation parent_id project_id =
    if has (scope_arms_of parent_config) relation.scope_field
    then some ((relation.scope_field, parent_id) ∷ [])
    else picker_scope_params parent_config project_id

-- `relation.kind === "one-to-many"`
unfoldable pub is_one_to_many : RelationKind → Bool
is_one_to_many one_to_many = true
is_one_to_many many_to_many = false

is_create : Method → Bool
is_create Method.create = true
is_create _ = false

-- `config.methods.includes("create")`
unfoldable pub can_create : EntityConfig → Bool
unfolding is_create
can_create config = any is_create config.methods

-- `actions?.find((action) => action.farField === field)`
action_for : String → Option (List CompoundCreateAction) → Option CompoundCreateAction
action_for field none = none
action_for field (some actions) = find? (λ action. action.far_field == field) actions

far_action : Option String → Option (List CompoundCreateAction) → Option CompoundCreateAction
unfolding action_for
far_action none actions = none
far_action (some field) actions = action_for field actions

unfoldable pub compound_create : EntityRelation → EntityConfig → Option CompoundCreateAction
unfolding far_action is_one_to_many
compound_create relation config =
    if is_one_to_many relation.kind
    then none
    else far_action relation.target_field config.compound_creates

can_create_far : Option EntityConfig → Bool
unfolding can_create
can_create_far none = false
can_create_far (some config) = can_create config

unfoldable pub active_compound_create :
    EntityRelation → EntityConfig → Option EntityConfig → Option CompoundCreateAction
unfolding compound_create can_create_far
active_compound_create relation config far_config =
    if can_create_far far_config then none else compound_create relation config

unfoldable pub child_compound_create : EntityRelation → EntityConfig → Option CompoundCreateAction
unfolding action_for is_one_to_many
child_compound_create relation config =
    if is_one_to_many relation.kind
    then action_for relation.scope_field config.child_compound_creates
    else none

unfoldable pub active_child_compound_create :
    EntityRelation → EntityConfig → Option CompoundCreateAction
unfolding child_compound_create can_create
active_child_compound_create relation config =
    if can_create config then none else child_compound_create relation config

parent_of : Option CompoundCreateAction → Option String
unfolding compound_parent_field
parent_of none = none
parent_of (some action) = compound_parent_field action

-- `compoundParent`
unfoldable pub compound_parent : EntityRelation → EntityConfig → Option EntityConfig → Option String
unfolding parent_of active_compound_create
compound_parent relation config far_config =
    parent_of (active_compound_create relation config far_config)

-- `Boolean(compoundParent) && compoundParent !== relation.scopeField`
unfoldable pub needs_parent_picker : Option String → String → Bool
needs_parent_picker none scope_field = false
needs_parent_picker (some parent) scope_field = truthy parent && not (parent == scope_field)

-- What the permissions query holds, and the project of the page.
module _ (permissions : Option MyPermissionsResponse) (project_id : Option String) where
  -- `permissions.has(code, projectId)`
  unfoldable pub may : String → Bool
  may code = has_permission permissions code project_id

  unfoldable pub can_create_child : EntityRelation → EntityConfig → Bool
  unfolding may can_create is_one_to_many
  can_create_child relation config =
      is_one_to_many relation.kind && can_create config && may (config.resource <> ".create")

  may_action : Option CompoundCreateAction → Bool
  unfolding may
  may_action none = false
  may_action (some action) = may action.permission

  unfoldable pub can_create_child_via_compound : EntityRelation → EntityConfig → Bool
  unfolding may_action active_child_compound_create
  can_create_child_via_compound relation config =
      is_one_to_many relation.kind && may_action (active_child_compound_create relation config)

  may_link : Option LinkCreateAction → Bool
  unfolding may
  may_link none = false
  may_link (some action) = may action.permission

  unfoldable pub can_link_existing : EntityRelation → EntityConfig → Bool
  unfolding may_link is_one_to_many
  can_link_existing relation config =
      not (is_one_to_many relation.kind) && may_link config.link_create

  may_unlink : Option LinkDeleteAction → Bool
  unfolding may
  may_unlink none = false
  may_unlink (some action) = may action.permission

  unfoldable pub can_unlink : EntityRelation → EntityConfig → Bool
  unfolding may_unlink is_one_to_many
  can_unlink relation config =
      not (is_one_to_many relation.kind)
      && is_some relation.target_field
      && may_unlink config.link_delete
