-- ===== src/Paging.antt =====
-- container/Table.tsx and components/molecules/pagination: pages of a list.
pub mod Pages
pub mod Summary
use testnexa.Base.{
  ℕ, suc, ◌+◌, ◌-◌, ◌*◌, ◌/◌, min, max, Bool, Option, none, some, List, [], ◌∷◌, length, take, drop,
  get_or, leb, num_eq, if◌then◌else◌,
}

-- `PAGE_SIZE_OPTIONS`
abbrev pub page_size_options : List ℕ
page_size_options = 10 ∷ 25 ∷ 50 ∷ 100 ∷ []

-- What `Pagination` is given, and what it derives.
pub record PaginationProps : Type 0 where
  pub current_page : ℕ
  pub total_pages : ℕ
  pub page_size : ℕ
  pub total_items : Option ℕ

unfoldable pub is_previous_disabled : PaginationProps → Bool
is_previous_disabled p = leb p.current_page 1

unfoldable pub is_next_disabled : PaginationProps → Bool
is_next_disabled p = leb p.total_pages p.current_page

-- `!totalItems`: not given, or none.
unfoldable pub range_start : PaginationProps → ℕ
range_start p =
    let total = get_or p.total_items 0 in
    if num_eq total 0 then 0 else (p.current_page - 1) * p.page_size + 1

unfoldable pub range_end : PaginationProps → ℕ
range_end p =
    let total = get_or p.total_items 0 in
    if num_eq total 0 then 0 else min (p.current_page * p.page_size) total

-- `"server" | "client"`
pub data Mode : Type 0 where
  server client : Mode

pub record TableProps (A : Type 0) : Type 0 where
  pub mode : Mode
  pub items : List A
  pub total : Option ℕ
  pub default_page_size : ℕ
  pub page : Option ℕ
  pub page_size : Option ℕ

-- The two state variables of client mode.
pub record TableState : Type 0 where
  pub client_page : ℕ
  pub client_page_size : ℕ

-- `Math.ceil(a / b)`, for `b` above 0.
unfoldable pub ceil_div : ℕ → ℕ → ℕ
ceil_div a b = (a + b - 1) / b

-- `xs.slice(start, end)`, for `start` up to `end`.
abbrev pub slice : {A : Type 0} → ℕ → ℕ → List A → List A
slice start stop xs = take (stop - start) (drop start xs)

module _ {A : Type 0} where
  unfoldable pub effective_page_size : TableProps A → TableState → ℕ
  effective_page_size p s = elim p.mode [
    | server ↦ get_or p.page_size p.default_page_size
    | client ↦ s.client_page_size
  ]

  unfoldable pub effective_total : TableProps A → ℕ
  effective_total p = elim p.mode [ server ↦ get_or p.total 0 | client ↦ length p.items ]

  unfoldable pub total_pages : TableProps A → TableState → ℕ
  unfolding ceil_div effective_total effective_page_size
  total_pages p s = max 1 (ceil_div (effective_total p) (effective_page_size p s))

  raw_page : TableProps A → TableState → ℕ
  raw_page p s = elim p.mode [ server ↦ get_or p.page 1 | client ↦ s.client_page ]

  unfoldable pub current_page : TableProps A → TableState → ℕ
  unfolding raw_page total_pages
  current_page p s = min (max (raw_page p s) 1) (total_pages p s)

  unfoldable pub visible_items : TableProps A → TableState → List A
  unfolding current_page effective_page_size
  visible_items p s = elim p.mode [
    | server ↦ p.items
    | client ↦
        let size = effective_page_size p s in
        slice ((current_page p s - 1) * size) (current_page p s * size) p.items
  ]

  -- What the footer is given.
  unfoldable pub pagination_props : TableProps A → TableState → PaginationProps
  unfolding current_page total_pages effective_page_size effective_total
  pagination_props p s = record {
    current_page = current_page p s;
    total_pages = total_pages p s;
    page_size = effective_page_size p s;
    total_items = some (effective_total p);
  }

-- The callbacks of server mode.
pub data Callback : Type 0 where
  on_page_change on_page_size_change : ℕ → Callback

-- A handler changes the state in client mode and calls back in server mode.
unfoldable pub go_to_page : Mode → ℕ → TableState → TableState × List Callback
go_to_page server next s = (s, on_page_change next ∷ [])
go_to_page client next s = (record s { client_page = next }, [])

unfoldable pub change_page_size : Mode → ℕ → TableState → TableState × List Callback
change_page_size server next s = (s, on_page_size_change next ∷ on_page_change 1 ∷ [])
change_page_size client next s = (record { client_page_size = next; client_page = 1 }, [])

-- The effect on a changed `defaultPageSize`, and that on a changed `resetPageKey`.
unfoldable pub default_page_size_changed : Mode → ℕ → TableState → TableState
default_page_size_changed server size s = s
default_page_size_changed client size s = record { client_page_size = size; client_page = 1 }

unfoldable pub reset_page_key_changed : Mode → TableState → TableState
reset_page_key_changed server s = s
reset_page_key_changed client s = record s { client_page = 1 }
