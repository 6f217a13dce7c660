-- ===== src/EntityList/Scoped.antt =====
-- The queries of a page keep its scope.
use testnexa.Base.{◌≡◌, refl, ◌∙◌, String, true, Option, none, some, List, [], ◌∷◌, truthy, eq_refl}
use testnexa.Base.Names.{Distinct}
use testnexa.Base.Dict.{keys, insert, lookup, lookup-insert, insert-Distinct}
use testnexa.Json.{Fields}
use testnexa.EntityCrud.Query.{build_query, set_params, lookup-set_params}
use testnexa.RelationTab.CreateLink.{Reply, ok, failed, error_message, field_errors_of}
use testnexa.EntityList.{Context, with_scope}
use testnexa.EntityList.Page.{
  ListPage, list_query, create_failed, create_settled, mutate_delete, confirm_delete,
  delete_settled, handle_sort_change, handle_filters_change, handle_search_change,
  close_create_modal, ask_delete, delete_answered, Event, change_page, change_page_size,
  change_sort, change_search, change_filters, open_create, close_create, cancel_delete, confirm,
  pick_parent, delete_row, created, deleted, step, after,
}

-- Every map of filters that is applied has each name once.
abbrev pub IsApplied : List Event → Type 0
IsApplied [] = Unit {0}
IsApplied (change_filters filters ∷ es) = Distinct (keys filters) × IsApplied es
IsApplied (e ∷ es) = IsApplied es

-- What the answer to a creation leaves alone.
abbrev IsSame : ListPage → ListPage → Type 0
IsSame s t =
    (t.filters ≡ s.filters)
    × (t.row_pending_delete ≡ s.row_pending_delete)
    × (t.deletions ≡ s.deletions)

create_failed-IsSame :
    (errors : Option (List (String × Option String))) (message : String) (s : ListPage)
    → IsSame s (create_failed errors message s)
unfolding create_failed
create_failed-IsSame none message s = (refl, refl, refl)
create_failed-IsSame (some errors) message s = (refl, refl, refl)

create_settled-IsSame : (reply : Reply) (s : ListPage) → IsSame s (create_settled reply s)
unfolding create_settled
create_settled-IsSame (ok answer) s = (refl, refl, refl)
create_settled-IsSame (failed failure) s =
    create_failed-IsSame (field_errors_of failure) (error_message failure) s

lookup-with_scope :
    (field value : String) (scope : Option (String × String))
    (filters query : List (String × String))
    → scope ≡ some (field, value)
    → truthy value ≡ true
    → Distinct (keys filters)
    → lookup field (set_params (with_scope scope filters) query) ≡ some value
unfolding with_scope
lookup-with_scope field value scope filters query e t d = rw e (
    lookup-set_params field value (insert field value filters) query
      (insert-Distinct field value filters d) t
      (lookup-insert field field value filters ∙ rw (eq_refl field) refl))

module _ (c : Context) where
  mutate_delete-filters :
      (row busy : Option Fields) (s : ListPage) → (mutate_delete c row busy s).filters ≡ s.filters
  unfolding mutate_delete
  mutate_delete-filters (some row) none s = refl
  mutate_delete-filters (some row) (some other) s = refl
  mutate_delete-filters none busy s = refl

  delete_answered-filters :
      (row : Option Fields) (reply : Reply) (s : ListPage)
      → (delete_answered c row reply s).filters ≡ s.filters
  unfolding delete_answered delete_settled
  delete_answered-filters none reply s = refl
  delete_answered-filters (some row) (ok answer) s = refl
  delete_answered-filters (some row) (failed failure) s = refl

  filters-Distinct : (es : List Event) → IsApplied es → Distinct (keys (after c es).filters)
  unfolding after step handle_sort_change handle_filters_change handle_search_change
      close_create_modal ask_delete confirm_delete
  filters-Distinct [] h = tt
  filters-Distinct (change_page n ∷ es) h = filters-Distinct es h
  filters-Distinct (change_page_size n ∷ es) h = filters-Distinct es h
  filters-Distinct (change_sort field ∷ es) h = filters-Distinct es h
  filters-Distinct (change_search text ∷ es) h = filters-Distinct es h
  filters-Distinct (change_filters filters ∷ es) h = h.0
  filters-Distinct (open_create ∷ es) h = filters-Distinct es h
  filters-Distinct (close_create ∷ es) h = filters-Distinct es h
  filters-Distinct (pick_parent id ∷ es) h = filters-Distinct es h
  filters-Distinct (delete_row row ∷ es) h = filters-Distinct es h
  filters-Distinct (cancel_delete ∷ es) h = filters-Distinct es h
  filters-Distinct (confirm ∷ es) h =
      let s = after c es in
      rw (mutate_delete-filters s.row_pending_delete s.deleting s) (filters-Distinct es h)
  filters-Distinct (created reply ∷ es) h =
      rw ((create_settled-IsSame reply (after c es)).0) (filters-Distinct es h)
  filters-Distinct (deleted reply ∷ es) h =
      let s = after c es in rw (delete_answered-filters s.deleting reply s) (filters-Distinct es h)

  -- After every history in which each map of filters that is applied has a name once, the query of
  -- the list has the value of the scope under the field of the scope, whatever the filters, the
  -- search and the sort are, and a filter of that name does not replace it.
  pub lookup-list_query :
      (field value : String) (es : List Event)
      → c.scope ≡ some (field, value)
      → truthy value ≡ true
      → IsApplied es
      → lookup field (build_query (list_query c (after c es))) ≡ some value
  unfolding build_query list_query
  lookup-list_query field value es e t h =
      lookup-with_scope field value c.scope (after c es).filters _ e t (filters-Distinct es h)
