-- ===== src/EntityList.antt =====
-- container/entity-crud/EntityListPage/EntityListPage.tsx: the page with the list of an entity. A scope
-- is its field and its value, both of which are texts that are not empty.
pub mod Page
pub mod Scoped
pub mod Permitted
use testnexa.Base.{
  ℕ, String, Bool, true, false, not, ◌&&◌, ◌==◌, Option, none, some, List, [], ◌∷◌, ◌<>◌, any,
  find?, present, get_or, truthy, if◌then◌else◌,
}
use mathlib.Core.Option.{map}
use testnexa.Base.Dict.{insert}
use testnexa.Entity.{Method, CompoundCreateAction, EntityConfig}
use testnexa.Json.{Fields}
use testnexa.EntityCrud.{create_path, link_path}
use testnexa.Session.Permissions.{MyPermissionsResponse}
use testnexa.RelationTab.{compound_parent_field, may}
use testnexa.RelationTab.CreateLink.{Request, create_row, create_compound}

-- What the page is rendered for: the entity, its scope, the permissions and the route.
pub record Context : Type 0 where
  pub config : EntityConfig
  pub scope : Option (String × String)
  pub permissions : Option MyPermissionsResponse
  pub project_id : Option String
  pub route_params : String → Option String

is_list : Method → Bool
is_list Method.list = true
is_list _ = false

is_create : Method → Bool
is_create Method.create = true
is_create _ = false

-- `{ [scope.field]: scope.value }`, over the filters.
unfoldable pub with_scope :
    Option (String × String) → List (String × String) → List (String × String)
with_scope none filters = filters
with_scope (some (field, value)) filters = insert field value filters

unfoldable pub action_for :
    Option (String × String) → Option (List CompoundCreateAction) → Option CompoundCreateAction
action_for none actions = none
action_for (some scope) none = none
action_for (some (field, value)) (some actions) =
    find? (λ action. action.far_field == field) actions

parent_of : Option CompoundCreateAction → Option String
parent_of none = none
parent_of (some action) = compound_parent_field action

-- `Boolean(compoundParent) && compoundParent !== scope.field`
is_other_parent : Option String → Option (String × String) → Bool
is_other_parent none scope = false
is_other_parent (some parent) none = truthy parent
is_other_parent (some parent) (some (field, value)) = truthy parent && not (parent == field)

-- `{ [compoundParent as string]: compoundParentId as string }`, or the scope.
parent_values : Bool → Option String → Option String → String × String → String → Option String
parent_values true parent picked scope name = if name == get_or parent "null" then picked else none
parent_values false parent picked (field, value) name = if name == field then some value else none

module _ (c : Context) where
  unfoldable pub can_list : Bool
  unfolding is_list
  can_list = any is_list c.config.methods

  -- `rawChildCompoundCreate`
  unfoldable pub raw_child_compound_create : Option CompoundCreateAction
  unfolding action_for
  raw_child_compound_create = action_for c.scope c.config.child_compound_creates

  unfoldable pub compound_parent : Option String
  unfolding parent_of raw_child_compound_create
  compound_parent = parent_of raw_child_compound_create

  unfoldable pub child_compound_needs_parent_picker : Bool
  unfolding is_other_parent compound_parent
  child_compound_needs_parent_picker = is_other_parent compound_parent c.scope

  unfoldable pub can_create : Bool
  unfolding is_create
  can_create =
      any is_create c.config.methods
      && may c.permissions c.project_id (c.config.resource <> ".create")

  unfoldable pub child_compound_create : Option CompoundCreateAction
  unfolding raw_child_compound_create can_create
  child_compound_create = if can_create then none else raw_child_compound_create

  unfoldable pub may_action : Option CompoundCreateAction → Bool
  may_action none = false
  may_action (some action) = may c.permissions c.project_id action.permission

  unfoldable pub can_create_via_compound : Bool
  unfolding may_action child_compound_create
  can_create_via_compound = may_action child_compound_create

  -- The button that opens the dialog is there.
  unfoldable pub has_new_button : Bool
  unfolding can_create can_create_via_compound
  has_new_button = if can_create then true else can_create_via_compound

  -- The form of the dialog is there, when this parent is picked.
  unfoldable pub compound_form_ready : Option String → Bool
  unfolding child_compound_needs_parent_picker
  compound_form_ready picked = if child_compound_needs_parent_picker then present picked else true

  -- `childCompoundCreate && scope.field`, with the path that cannot be built as `none`.
  unfoldable pub request_for :
      Option CompoundCreateAction
      → Option (String × String)
      → Option String
      → Fields
      → Option Request
  unfolding parent_values compound_parent child_compound_needs_parent_picker
  request_for none scope picked values =
      some (create_row c.config (create_path c.config c.route_params) values)
  request_for (some action) none picked values =
      some (create_row c.config (create_path c.config c.route_params) values)
  request_for (some action) (some scope) picked values =
      map (λ path. create_compound action path values)
        (link_path action.path_template
          (parent_values child_compound_needs_parent_picker compound_parent picked scope))

  -- The function of `createMutation`.
  unfoldable pub create_request : Option String → Fields → Option Request
  unfolding request_for child_compound_create
  create_request picked values = request_for child_compound_create c.scope picked values
