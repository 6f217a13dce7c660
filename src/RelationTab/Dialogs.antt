-- ===== src/RelationTab/Dialogs.antt =====
-- container/entity-crud/EntityDetailPage/EntityRelationTab.tsx: the dialogs that create a child row, link
-- a record that exists, and remove a link, with mutations that settle at any later time.
pub mod Events
pub mod Covered
pub mod Permitted
use mathlib.Core.Option.{map}
use testnexa.Base.{
  ℕ, suc, String, Bool, true, false, not, ◌&&◌, ◌||◌, ◌==◌, Option, none, some, List, [], ◌∷◌, ◌++◌,
  ◌<>◌, truthy, is_some, get_or, if◌then◌else◌,
}
use testnexa.Json.{Json, null, Fields, property}
use testnexa.Json.Text.{string_of}
use testnexa.Entity.{
  LinkCreateAction, LinkDeleteAction, CompoundCreateAction, EntityConfig, EntityRelation,
}
use testnexa.EntityCrud.{create_path, link_path}
use testnexa.Session.Permissions.{MyPermissionsResponse}
use testnexa.RelationTab.{
  active_child_compound_create, can_create_child, can_create_child_via_compound, can_link_existing,
  can_unlink, admin_base_path,
}
use testnexa.RelationTab.CreateLink.{
  Tab, Failure, other, Reply, ok, failed, error_message, field_errors_of,
}
use testnexa.RelationTab.CreateLink.Rows.{non_empty}

-- A request of a dialog, with its path and the values of the form where it has a body.
pub data Call : Type 0 where
  create_call : EntityConfig → String → Fields → Call
  compound_call : CompoundCreateAction → String → Fields → Call
  link_call : LinkCreateAction → String → Call
  unlink_call : LinkDeleteAction → String → Call

-- The state of the three dialogs; `linking` and `unlinking` are `isPending` of their mutations, `calls`
-- the requests so far, and `refetches` counts the invalidations of the list.
pub record Dialogs : Type 0 where
  pub show_create_modal : Bool
  pub create_error : Option String
  pub create_field_errors : Option (List (String × Option String))
  pub show_link_modal : Bool
  pub picked_id : Option String
  pub picker_scope : Option (List (String × String))
  pub link_error : Option String
  pub linking : Bool
  pub row_pending_unlink : Option Fields
  pub unlink_error : Option String
  pub unlinking : Bool
  pub calls : List Call
  pub refetches : ℕ

abbrev pub closed : Dialogs
closed = record {
  show_create_modal = false;
  create_error = none;
  create_field_errors = none;
  show_link_modal = false;
  picked_id = none;
  picker_scope = none;
  link_error = none;
  linking = false;
  row_pending_unlink = none;
  unlink_error = none;
  unlinking = false;
  calls = [];
  refetches = 0;
}

-- `{ [relation.scopeField]: parentId }`
abbrev pub scope_values : Tab → String → Option String
scope_values tab name = if name == tab.relation.scope_field then some tab.parent_id else none

-- `{ [relation.scopeField]: parentId, [relation.targetField as string]: farId }`
abbrev pub pair_values : Tab → String → String → Option String
pair_values tab far_id name =
    if name == get_or tab.relation.target_field "null" then some far_id else scope_values tab name

unfoldable pub open_create_modal : Dialogs → Dialogs
open_create_modal s = record s {
  create_error = none;
  create_field_errors = none;
  show_create_modal = true;
}

unfoldable pub open_link_modal : Dialogs → Dialogs
open_link_modal s = record s { link_error = none; show_link_modal = true }

unfoldable pub close_link_modal : Dialogs → Dialogs
close_link_modal s = record s {
  show_link_modal = false;
  picked_id = none;
  picker_scope = none;
  link_error = none;
}

unfoldable pub ask_unlink : Fields → Dialogs → Dialogs
ask_unlink row s = record s { unlink_error = none; row_pending_unlink = some row }

unfoldable pub close_unlink_modal : Dialogs → Dialogs
close_unlink_modal s = record s { row_pending_unlink = none; unlink_error = none }

create_failed : Option (List (String × Option String)) → String → Dialogs → Dialogs
create_failed (some errors) message s = record s { create_field_errors = some errors }
create_failed none message s = record s { create_error = some message }

-- `onSuccess` and `onError` of the three mutations.
unfoldable pub create_settled : Reply → Dialogs → Dialogs
unfolding create_failed field_errors_of error_message
create_settled (ok created) s = record s {
  show_create_modal = false;
  create_error = none;
  create_field_errors = none;
  refetches = suc s.refetches;
}
create_settled (failed failure) s =
    create_failed (field_errors_of failure) (error_message failure) s

unfoldable pub link_settled : Reply → Dialogs → Dialogs
unfolding close_link_modal error_message
link_settled (ok answer) s = record (close_link_modal s) {
  linking = false;
  refetches = suc s.refetches;
}
link_settled (failed failure) s = record s {
  linking = false;
  link_error = some (error_message failure);
}

unfoldable pub unlink_settled : Reply → Dialogs → Dialogs
unfolding close_unlink_modal error_message
unlink_settled (ok answer) s = record (close_unlink_modal s) {
  unlinking = false;
  refetches = suc s.refetches;
}
unlink_settled (failed failure) s = record s {
  unlinking = false;
  unlink_error = some (error_message failure);
}

module _ (tab : Tab) where
  -- What `createMutation` sends; `none` where the path throws.
  child_call : Option CompoundCreateAction → Fields → Option Call
  child_call (some action) values =
      map (λ path. compound_call action path values)
        (link_path action.path_template (scope_values tab))
  child_call none values = some (create_call tab.config (create_path tab.config tab.params) values)

  link_call_of : Option LinkCreateAction → String → Option Call
  link_call_of none far_id = none
  link_call_of (some action) far_id =
      map (link_call action) (link_path action.path_template (pair_values tab far_id))

  -- The id of the far record, where the row has one that is a text and not empty.
  unfoldable pub far_id_of : Fields → Option String
  unfolding non_empty
  far_id_of row = elim tab.relation.target_field [
    | none ↦ none
    | some name ↦ non_empty (property name row)
  ]

  -- Where a click on a row leads; `none` where nothing happens.
  unfoldable pub row_target : Option String → Option String → Fields → Option String
  unfolding admin_base_path string_of
  row_target project_id org_id row =
      let path = admin_base_path project_id org_id <> "/" <> tab.relation.target_entity <> "/" in
      elim (property (get_or tab.relation.target_field "id") row) [
        | none ↦ none
        | some null ↦ none
        | some value ↦ some (path <> string_of value)
      ]

  unlink_call_of : Option LinkDeleteAction → Option String → Option Call
  unlink_call_of (some action) (some far_id) =
      map (unlink_call action) (link_path action.path_template (pair_values tab far_id))
  unlink_call_of _ _ = none

  submitted : Option Call → Dialogs → Dialogs
  unfolding create_settled
  submitted none s = create_settled (failed other) s
  submitted (some call) s = record s { calls = s.calls ++ call ∷ [] }

  unfoldable pub submit_create : Fields → Dialogs → Dialogs
  unfolding child_call submitted active_child_compound_create
  submit_create values s =
      submitted (child_call (active_child_compound_create tab.relation tab.config) values) s

  linked : Option Call → Dialogs → Dialogs
  unfolding link_settled
  linked none s = link_settled (failed other) s
  linked (some call) s = record s { calls = s.calls ++ call ∷ []; linking = true }

  -- The button is disabled while its mutation runs, and does nothing without a pick.
  link_picked : Option String → Dialogs → Dialogs
  unfolding linked link_call_of
  link_picked none s = s
  link_picked (some far_id) s =
      if truthy far_id && not s.linking
      then linked (link_call_of tab.config.link_create far_id) s
      else s

  unfoldable pub submit_link : Dialogs → Dialogs
  unfolding link_picked
  submit_link s = link_picked s.picked_id s

  unlinked : Option Call → Dialogs → Dialogs
  unfolding unlink_settled
  unlinked none s = unlink_settled (failed other) s
  unlinked (some call) s = record s { calls = s.calls ++ call ∷ []; unlinking = true }

  unlink_row : Option Fields → Dialogs → Dialogs
  unfolding unlinked unlink_call_of far_id_of
  unlink_row none s = s
  unlink_row (some row) s =
      if s.unlinking then s else unlinked (unlink_call_of tab.config.link_delete (far_id_of row)) s

  unfoldable pub confirm_unlink : Dialogs → Dialogs
  unfolding unlink_row
  confirm_unlink s = unlink_row s.row_pending_unlink s
