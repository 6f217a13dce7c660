-- ===== src/RelationTab/CreateLink.antt =====
-- container/entity-crud/EntityDetailPage/EntityRelationTab.tsx: creating a far record and linking it,
-- two requests one after the other, with the dialog around them.
pub mod Rows
pub mod Gate
pub mod Closing
pub mod Permitted
use testnexa.Base.{
  ℕ, suc, ◌+◌, String, Bool, true, false, not, ◌&&◌, ◌||◌, ◌==◌, Option, none, some, List, [], ◌∷◌,
  ◌++◌, ◌<>◌, present, is_some, get_or, map, find?, get_elem?, if◌then◌else◌,
}
use testnexa.Json.{Json, Fields}
use testnexa.Entity.{
  FieldConfig, EntityRelation, LinkCreateAction, CompoundCreateAction, EntityConfig,
}
use testnexa.EntityCrud.{create_path, link_path}
use testnexa.Session.Permissions.{MyPermissionsResponse}
use testnexa.RelationTab.{
  can_create, active_compound_create, compound_parent, needs_parent_picker, is_one_to_many, may,
  can_link_existing,
}
use testnexa.RelationTab.CreateLink.Gate.{links_automatically}
use testnexa.RelationTab.CreateLink.Rows.{id_of, row_of, far_row_display}

-- What a request fails with: an `ApiError`, with its message and the `field_errors` of its body, or
-- anything else that is thrown.
pub data Failure : Type 0 where
  api_error : String → Option (List (String × List String)) → Failure
  other : Failure

pub data Reply : Type 0 where
  ok : Option Json → Reply
  failed : Failure → Reply

-- A request, with what it is made from: the path, and the values of the form where it has a body.
pub data Request : Type 0 where
  create_row : EntityConfig → String → Fields → Request
  create_compound : CompoundCreateAction → String → Fields → Request
  link_row : LinkCreateAction → String → Request

unfoldable pub error_message : Failure → String
error_message (api_error message errors) = message
error_message other = "Something went wrong. Please try again."

-- `none` is `undefined`, of a field without messages too.
unfoldable pub field_errors_of : Failure → Option (List (String × Option String))
field_errors_of (api_error message (some errors)) =
    some (map (λ entry. (entry.0, get_elem? entry.1 0)) errors)
field_errors_of _ = none

unfoldable pub created_not_linked_message : String → String → String → String → String
created_not_linked_message display id reason far_label =
    "\"" <> display <> "\" (id " <> id <> ") was created, but linking it to this record failed: "
    <> reason <> " It was saved and is NOT linked — use \"Link existing " <> far_label
    <> "\" to link it."

pub data Result : Type 0 where
  -- The mutation resolved.
  done : Result
  -- `CreatedNotLinkedError`, with its message
  created_not_linked : String → Result
  rejected : Failure → Result

-- A path that cannot be built throws before its request is sent.
unfoldable pub send_to :
    (Request → Reply) → Option String → (String → Request) → List Request × Reply
send_to send none request = ([], failed other)
send_to send (some path) request = (request path ∷ [], send (request path))

is_named : Option String → FieldConfig → Bool
is_named none field = false
is_named (some name) field = field.name == name

label_of : Option FieldConfig → Option String
label_of none = none
label_of (some field) = field.label_field

-- The properties of the tab, its route's parameters, and the label of the far entity in lower case.
pub record Tab : Type 0 where
  pub relation : EntityRelation
  pub config : EntityConfig
  pub far_config : Option EntityConfig
  pub parent_id : String
  pub params : String → Option String
  pub far_label : String

-- A tab, and the server.
module _ (tab : Tab) (send : Request → Reply) where
  far_label_field : Option String
  unfolding label_of is_named
  far_label_field = label_of (find? (is_named tab.relation.target_field) tab.config.fields)

  -- `{ [relation.scopeField]: parentId, [relation.targetField as string]: farId }`
  link_values : String → String → Option String
  link_values far_id name =
      if name == get_or tab.relation.target_field "null"
      then some far_id
      else if name == tab.relation.scope_field
      then some tab.parent_id
      else none

  link_half : Option LinkCreateAction → String → List Request × Reply
  unfolding send_to link_values
  link_half none far_id = ([], failed other)
  link_half (some action) far_id =
      send_to send (link_path action.path_template (link_values far_id)) (link_row action)

  -- `compoundNeedsParentPicker ? compoundParentId : parentId`
  parent_value : Option String → Option String → Option String
  parent_value parent picked =
      if needs_parent_picker parent tab.relation.scope_field then picked else some tab.parent_id

  -- `{ [compoundParent as string]: ... }`
  create_values : Option String → Option String → String → Option String
  unfolding parent_value
  create_values parent picked name =
      if name == get_or parent "null" then parent_value parent picked else none

  create_half :
      Option CompoundCreateAction
      → Option EntityConfig
      → Option String
      → Option String
      → Fields
      → List Request × Reply
  unfolding send_to create_values
  create_half (some action) far parent picked values =
      send_to send (link_path action.path_template (create_values parent picked))
        (λ path. create_compound action path values)
  create_half none (some far) parent picked values =
      send_to send (some (create_path far tab.params)) (λ path. create_row far path values)
  create_half none none parent picked values = ([], failed other)

  message_for : Option Json → String → String → String
  unfolding far_label_field
  message_for created id reason =
      created_not_linked_message (far_row_display (row_of created) far_label_field) id reason
        tab.far_label

  linked : Option Json → String → Reply → Result
  unfolding message_for error_message
  linked created far_id (ok answer) = done
  linked created far_id (failed failure) =
      created_not_linked (message_for created far_id (error_message failure))

  -- `typeof farId !== "string" || !farId` is `none`.
  link_created : Option Json → Option String → List Request × Result
  unfolding link_half linked
  link_created created none = (
    [],
    created_not_linked
        (message_for created "unknown" "The server did not return the new record's id."),
  )
  link_created created (some far_id) =
      let half = link_half tab.config.link_create far_id in (half.0, linked created far_id half.1)

  after_create : Bool → List Request → Reply → List Request × Result
  unfolding link_created
  after_create automatic log (failed failure) = (log, rejected failure)
  after_create true log (ok created) = (log, done)
  after_create false log (ok created) =
      let rest = link_created created (id_of created) in (log ++ rest.0, rest.1)

  -- The function of the mutation: the requests that are sent, and what it settles with.
  unfoldable pub create_and_link : Option String → Fields → List Request × Result
  unfolding create_half after_create
  create_and_link picked values =
      let action = active_compound_create tab.relation tab.config tab.far_config in
      let half =
        create_half action tab.far_config (compound_parent tab.relation tab.config tab.far_config)
          picked values in
      after_create (links_automatically action) half.0 half.1

-- The state around the dialog; `refetches` counts the invalidations of the list.
pub record Dialog : Type 0 where
  pub show_create_link_modal : Bool
  pub create_link_error : Option String
  pub create_link_field_errors : Option (List (String × Option String))
  pub not_linked_notice : Option String
  pub compound_parent_id : Option String
  pub compound_parent_scope : Option (List (String × String))
  pub refetches : ℕ

unfoldable pub close_create_link_modal : Dialog → Dialog
close_create_link_modal s = record s {
  show_create_link_modal = false;
  create_link_error = none;
  create_link_field_errors = none;
  compound_parent_id = none;
  compound_parent_scope = none;
}

show_failure : Option (List (String × Option String)) → String → Dialog → Dialog
show_failure (some errors) message s = record s { create_link_field_errors = some errors }
show_failure none message s = record s { create_link_error = some message }

-- `onSuccess` and `onError`
unfoldable pub settle : Result → Dialog → Dialog
unfolding close_create_link_modal show_failure
settle done s = record (close_create_link_modal s) {
  not_linked_notice = none;
  refetches = suc s.refetches;
}
settle (created_not_linked message) s = record (close_create_link_modal s) {
  not_linked_notice = some message;
  refetches = suc s.refetches;
}
settle (rejected failure) s = show_failure (field_errors_of failure) (error_message failure) s
