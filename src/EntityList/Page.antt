-- ===== src/EntityList/Page.antt =====
-- container/entity-crud/EntityListPage/EntityListPage.tsx: the state of the page, its handlers and what
-- its two mutations do when they settle.
use testnexa.Base.{ℕ, suc, String, Bool, true, false, Option, none, some, List, [], ◌∷◌}
use testnexa.Json.{Json, Fields, property}
use testnexa.Json.Text.{string_of}
use testnexa.EntityCrud.{entity_path}
use testnexa.EntityCrud.Query.{ListQuery}
use testnexa.RelationTab.CreateLink.{Reply, ok, failed, error_message, field_errors_of}
use testnexa.RelationTab.Sorting.{SortDirection, next_sort, sort_param}
use testnexa.EntityList.{Context, with_scope}

pub record ListPage : Type 0 where
  pub page : ℕ
  pub page_size : ℕ
  pub sort : Option (String × SortDirection)
  pub filters : List (String × String)
  pub search_text : String
  pub compound_parent_id : Option String
  pub show_create_modal : Bool
  pub create_error : Option String
  pub create_field_errors : Option (List (String × Option String))
  pub row_pending_delete : Option Fields
  pub delete_error : Option String
  -- the row that is being deleted, and the paths of the deletions so far
  pub deleting : Option Fields
  pub deletions : List String
  -- how often the lists of the entity have been invalidated
  pub refetches : ℕ

abbrev pub start : ListPage
start = record {
  page = 1;
  page_size = 25;
  sort = none;
  filters = [];
  search_text = "";
  compound_parent_id = none;
  show_create_modal = false;
  create_error = none;
  create_field_errors = none;
  row_pending_delete = none;
  delete_error = none;
  deleting = none;
  deletions = [];
  refetches = 0;
}

-- The query of `listQuery`.
unfoldable pub list_query : Context → ListPage → ListQuery
unfolding with_scope sort_param
list_query c s = record {
  page = s.page;
  page_size = s.page_size;
  q = some s.search_text;
  sort = sort_param s.sort;
  params = with_scope c.scope s.filters;
}

-- `String(row.id)`
id_text : Option Json → String
id_text none = "undefined"
id_text (some v) = string_of v

unfoldable pub delete_path : Context → Fields → String
unfolding id_text
delete_path c row = entity_path c.config (id_text (property "id" row))

unfoldable pub handle_sort_change : String → ListPage → ListPage
unfolding next_sort
handle_sort_change field s = record s { page = 1; sort = next_sort field s.sort }

unfoldable pub handle_filters_change : List (String × String) → ListPage → ListPage
handle_filters_change filters s = record s { page = 1; filters = filters }

unfoldable pub handle_search_change : String → ListPage → ListPage
handle_search_change text s = record s { page = 1; search_text = text }

-- The dialog is closed, by its cross or by Cancel.
unfoldable pub close_create_modal : ListPage → ListPage
close_create_modal s = record s { show_create_modal = false; compound_parent_id = none }

unfoldable pub create_failed : Option (List (String × Option String)) → String → ListPage → ListPage
create_failed (some errors) message s = record s { create_field_errors = some errors }
create_failed none message s = record s { create_error = some message }

-- `onSuccess` and `onError` of `createMutation`
unfoldable pub create_settled : Reply → ListPage → ListPage
unfolding create_failed
create_settled (ok answer) s = record s {
  show_create_modal = false;
  compound_parent_id = none;
  create_error = none;
  create_field_errors = none;
  refetches = suc s.refetches;
}
create_settled (failed failure) s =
    create_failed (field_errors_of failure) (error_message failure) s

unfoldable pub ask_delete : Fields → ListPage → ListPage
ask_delete row s = record s { delete_error = none; row_pending_delete = some row }

-- The button is disabled while a deletion is on its way.
unfoldable pub mutate_delete : Context → Option Fields → Option Fields → ListPage → ListPage
unfolding delete_path
mutate_delete c (some row) none s = record s {
  deleting = some row;
  deletions = delete_path c row ∷ s.deletions;
}
mutate_delete c _ _ s = s

unfoldable pub confirm_delete : Context → ListPage → ListPage
unfolding mutate_delete
confirm_delete c s = mutate_delete c s.row_pending_delete s.deleting s

unfoldable pub delete_settled : Reply → ListPage → ListPage
delete_settled (ok answer) s = record s {
  deleting = none;
  row_pending_delete = none;
  refetches = suc s.refetches;
}
delete_settled (failed failure) s = record s {
  deleting = none;
  delete_error = some (error_message failure);
}

pub data Event : Type 0 where
  change_page change_page_size : ℕ → Event
  change_sort change_search : String → Event
  change_filters : List (String × String) → Event
  open_create close_create cancel_delete confirm : Event
  pick_parent : Option String → Event
  delete_row : Fields → Event
  -- The answers to the two mutations.
  created deleted : Reply → Event

module _ (c : Context) where
  unfoldable pub delete_answered : Option Fields → Reply → ListPage → ListPage
  unfolding delete_settled
  delete_answered none reply s = s
  delete_answered (some row) reply s = delete_settled reply s

  unfoldable pub step : Event → ListPage → ListPage
  unfolding handle_sort_change handle_filters_change handle_search_change close_create_modal
      create_settled ask_delete confirm_delete delete_answered
  step (change_page n) s = record s { page = n }
  step (change_page_size n) s = record s { page_size = n }
  step (change_sort field) s = handle_sort_change field s
  step (change_search text) s = handle_search_change text s
  step (change_filters filters) s = handle_filters_change filters s
  step open_create s = record s { show_create_modal = true }
  step close_create s = close_create_modal s
  step (pick_parent id) s = record s { compound_parent_id = id }
  step (delete_row row) s = ask_delete row s
  step cancel_delete s = record s { row_pending_delete = none }
  step confirm s = confirm_delete c s
  step (created reply) s = create_settled reply s
  step (deleted reply) s = delete_answered s.deleting reply s

  -- After a history, the latest event first.
  unfoldable pub after : List Event → ListPage
  unfolding step
  after [] = start
  after (e ∷ es) = step e (after es)
