-- ===== src/RelationTab/CreateLink/Gate.antt =====
-- container/entity-crud/EntityDetailPage/EntityRelationTab.tsx: the gate of the compound creation.
use testnexa.Base.{
  String, Bool, true, false, not, ◌&&◌, ◌||◌, Option, none, some, ◌<>◌, present, is_some,
  if◌then◌else◌,
}
use testnexa.Entity.{EntityRelation, CompoundCreateAction, EntityConfig}
use testnexa.Session.Permissions.{MyPermissionsResponse}
use testnexa.RelationTab.{
  can_create, active_compound_create, compound_parent, is_one_to_many, may, can_link_existing,
}

-- `"generic" | "compound" | null`
pub data CreateLinkMode : Type 0 where
  generic compound unavailable : CreateLinkMode

unfoldable pub mode_of :
    Option EntityConfig → Option CompoundCreateAction → Option String → CreateLinkMode
unfolding can_create
mode_of none action parent = unavailable
mode_of (some far_config) none parent = if can_create far_config then generic else unavailable
mode_of (some far_config) (some action) parent =
    if can_create far_config then generic else if present parent then compound else unavailable

unfoldable pub create_link_mode :
    EntityRelation → EntityConfig → Option EntityConfig → CreateLinkMode
unfolding mode_of compound_parent active_compound_create
create_link_mode relation config far_config =
    mode_of far_config (active_compound_create relation config far_config)
      (compound_parent relation config far_config)

-- `Boolean(activeCompoundCreate?.linksAutomatically)`
unfoldable pub links_automatically : Option CompoundCreateAction → Bool
links_automatically none = false
links_automatically (some action) = action.links_automatically

unfoldable pub needs_link_call : CreateLinkMode → Option CompoundCreateAction → Bool
unfolding links_automatically
needs_link_call generic action = true
needs_link_call _ action = not (links_automatically action)

unfoldable pub resource_of : Option EntityConfig → String
resource_of none = "undefined"
resource_of (some config) = config.resource

unfoldable pub create_link_permission :
    CreateLinkMode → Option CompoundCreateAction → Option EntityConfig → String
unfolding resource_of
create_link_permission compound (some action) far_config = action.permission
create_link_permission _ action far_config = resource_of far_config <> ".create"

unfoldable pub is_available : CreateLinkMode → Bool
is_available unavailable = false
is_available _ = true

unfoldable pub can_create_and_link :
    Option MyPermissionsResponse
    → Option String
    → EntityRelation
    → EntityConfig
    → Option EntityConfig
    → Bool
unfolding create_link_mode needs_link_call create_link_permission is_available may can_link_existing
can_create_and_link permissions project_id relation config far_config =
    let action = active_compound_create relation config far_config in
    let mode = create_link_mode relation config far_config in
    not (is_one_to_many relation.kind)
    && is_some relation.target_field
    && is_available mode
    && may permissions project_id (create_link_permission mode action far_config)
    && (not (needs_link_call mode action)
        || can_link_existing permissions project_id relation config)
