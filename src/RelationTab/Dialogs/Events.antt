-- ===== src/RelationTab/Dialogs/Events.antt =====
-- container/entity-crud/EntityDetailPage/EntityRelationTab.tsx: what can happen to the dialogs.
use testnexa.Base.{
  String, Bool, ◌&&◌, ◌||◌, false, Option, none, some, List, [], ◌∷◌, if◌then◌else◌,
}
use testnexa.Json.{Fields}
use testnexa.Session.Permissions.{MyPermissionsResponse}
use testnexa.RelationTab.{
  can_create_child, can_create_child_via_compound, can_link_existing, can_unlink,
}
use testnexa.RelationTab.CreateLink.{Tab, Reply}
use testnexa.RelationTab.Dialogs.{
  Dialogs, open_create_modal, open_link_modal, close_link_modal, ask_unlink, close_unlink_modal,
  create_settled, link_settled, unlink_settled, submit_create, submit_link, confirm_unlink,
}

-- What can be done in the dialogs, and the answers to their requests.
pub data Event : Type 0 where
  open_create close_create open_link close_link link close_unlink confirm : Event
  submit ask : Fields → Event
  resolve_scope : String → String → Event
  pick : Option String → Event
  settle_create settle_link settle_unlink : Reply → Event

-- The permissions, the project of the page, and the tab. A control is rendered only where its gate
-- holds, and a dialog's controls only while it is visible.
module _ (permissions : Option MyPermissionsResponse) (project_id : Option String) (tab : Tab) where
  unfoldable pub can_create_row : Bool
  unfolding can_create_child can_create_child_via_compound
  can_create_row =
      can_create_child permissions project_id tab.relation tab.config
      || can_create_child_via_compound permissions project_id tab.relation tab.config

  unfoldable pub can_link : Bool
  unfolding can_link_existing
  can_link = can_link_existing permissions project_id tab.relation tab.config

  unfoldable pub can_remove : Bool
  unfolding can_unlink
  can_remove = can_unlink permissions project_id tab.relation tab.config

  unfoldable pub step : Event → Dialogs → Dialogs
  unfolding can_create_row can_link can_remove open_create_modal open_link_modal close_link_modal
      ask_unlink close_unlink_modal create_settled link_settled unlink_settled submit_create
      submit_link confirm_unlink
  step open_create s = if can_create_row then open_create_modal s else s
  step close_create s = record s { show_create_modal = false }
  step (submit values) s =
      if can_create_row && s.show_create_modal then submit_create tab values s else s
  step (settle_create reply) s = create_settled reply s
  step open_link s = if can_link then open_link_modal s else s
  step close_link s = close_link_modal s
  step (resolve_scope name value) s =
      if can_link && s.show_link_modal
      then record s { picker_scope = some ((name, value) ∷ []); picked_id = none }
      else s
  step (pick id) s = if can_link && s.show_link_modal then record s { picked_id = id } else s
  step link s = if can_link && s.show_link_modal then submit_link tab s else s
  step (settle_link reply) s = link_settled reply s
  step (ask row) s = if can_remove then ask_unlink row s else s
  step close_unlink s = close_unlink_modal s
  step confirm s = if can_remove then confirm_unlink tab s else s
  step (settle_unlink reply) s = unlink_settled reply s

  unfoldable pub after : List Event → Dialogs → Dialogs
  unfolding step
  after [] s = s
  after (e ∷ es) s = after es (step e s)
