-- ===== src/RelationTab/Sorting.antt =====
-- container/entity-crud/EntityDetailPage/EntityRelationTab.tsx: the sort and the filters of the list.
use testnexa.Base.{
  ℕ, String, ◌≡◌, refl, false, eq_refl, ◌==◌, Option, none, some, List, [], ◌<>◌, if◌then◌else◌,
}

-- `"asc" | "desc"`
pub data SortDirection : Type 0 where
  asc desc : SortDirection

pub record SortState : Type 0 where
  pub sort_resource : String
  pub sort : Option (String × SortDirection)
  pub filters : List (String × String)

-- A render for a relation's entity.
unfoldable pub render_sort : String → SortState → SortState
render_sort entity s =
    if s.sort_resource == entity
    then s
    else record { sort_resource = entity; sort = none; filters = [] }

unfoldable pub sort_param : Option (String × SortDirection) → Option String
sort_param none = none
sort_param (some (field, asc)) = some ("" <> field)
sort_param (some (field, desc)) = some ("-" <> field)

flip_sort : String → SortDirection → Option (String × SortDirection)
flip_sort field asc = some (field, desc)
flip_sort field desc = none

unfoldable pub next_sort :
    String → Option (String × SortDirection) → Option (String × SortDirection)
unfolding flip_sort
next_sort field none = some (field, asc)
next_sort field (some (sorted, direction)) =
    if sorted == field then flip_sort field direction else some (field, asc)

-- The state, and the page that `onPageChange` is called with.
unfoldable pub handle_sort_change : String → SortState → SortState × ℕ
unfolding next_sort
handle_sort_change field s = (record s { sort = next_sort field s.sort }, 1)

next_sort-flip :
    (field : String) (direction : SortDirection)
    → next_sort field (some (field, direction)) ≡ flip_sort field direction
unfolding next_sort
next_sort-flip field direction = rw (eq_refl field)

-- No sort, or one by another field.
unfoldable pub IsUnsortedBy : String → Option (String × SortDirection) → Type 0
IsUnsortedBy field none = Unit
IsUnsortedBy field (some (sorted, direction)) = (sorted == field) ≡ false

first_click :
    (field : String) (o : Option (String × SortDirection))
    → IsUnsortedBy field o
    → next_sort field o ≡ some (field, asc)
unfolding next_sort IsUnsortedBy
first_click field none h = refl
first_click field (some (sorted, direction)) h = rw h

-- The state after a click on a header.
abbrev clicked : String → SortState → SortState
clicked field s = (handle_sort_change field s).0

-- From a list that is not sorted by a field, three clicks on the header of the field ask the server
-- for its ascending order, then for its descending order, and then for no order, and leave the
-- filters alone.
sort_param-handle_sort_change :
    (field : String) (s : SortState)
    → IsUnsortedBy field s.sort
    → (sort_param (clicked field s).sort ≡ some ("" <> field))
      × (sort_param (clicked field (clicked field s)).sort ≡ some ("-" <> field))
      × (clicked field (clicked field (clicked field s)) ≡ record s { sort = none })
unfolding handle_sort_change sort_param flip_sort
sort_param-handle_sort_change field s h =
    let first = first_click field s.sort h in
    (
      rw first refl,
      rw (first, next_sort-flip field asc) refl,
      rw (first, next_sort-flip field asc, next_sort-flip field desc) refl,
    )
