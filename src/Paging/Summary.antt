-- ===== src/Paging/Summary.antt =====
-- The footer of the table: the current page is one of the pages, and the numbers of the summary
-- are those of the rows that are shown.
use testnexa.Base.{
  ℕ, zero, suc, ◌+◌, ◌-◌, ◌*◌, ◌≤◌, ◌<◌, max, ◌≡◌, ◌↔◌, true, Option, List, arith, length, drop,
  length-take, length-drop,
}
use testnexa.Paging.{
  client, is_previous_disabled, is_next_disabled, range_start, range_end, TableProps, TableState,
  ceil_div, effective_page_size, effective_total, total_pages, current_page, visible_items,
  pagination_props,
}

module _ {A : Type 0} (p : TableProps A) (s : TableState) where
  -- In both modes the page that is shown is one of the pages, whatever page was asked for, and
  -- Previous and Next are disabled exactly on the first and on the last one.
  current_page_bounds :
      (1 ≤ current_page p s)
      × (current_page p s ≤ total_pages p s)
      × ((is_previous_disabled (pagination_props p s) ≡ true) ↔ (current_page p s ≡ 1))
      × ((is_next_disabled (pagination_props p s) ≡ true) ↔ (current_page p s ≡ total_pages p s))
  unfolding is_previous_disabled is_next_disabled pagination_props current_page total_pages
  current_page_bounds = (omega arith, omega arith, ground arith, ground arith)

ceil_div-lt : (a b : ℕ) → 0 < a → 0 < b → (max 1 (ceil_div a b) - 1) * b < a
unfolding ceil_div
ceil_div-lt a b h k = grind arith

page-lt : (c t size total : ℕ) → c ≤ t → (t - 1) * size < total → (c - 1) * size < total
page-lt c t size total h k = grind arith

page-suc : (c size : ℕ) → 1 ≤ c → c * size ≡ (c - 1) * size + size
page-suc zero size h = absurd (omega arith)
page-suc (suc k) size h = let e : suc k - 1 ≡ k = omega arith in rw e (omega arith)

module _ {A : Type 0} (items : List A) (total : Option ℕ) (default_size : ℕ)
    (page size : Option ℕ) where
  abbrev table : TableProps A
  table = record {
    mode = client;
    items = items;
    total = total;
    default_page_size = default_size;
    page = page;
    page_size = size;
  }

  last_page :
      (s : TableState)
      → 0 < s.client_page_size
      → 0 < length items
      → (total_pages table s - 1) * s.client_page_size < length items
  unfolding total_pages effective_total effective_page_size
  last_page s h k = ceil_div-lt (length items) s.client_page_size k h

  -- In client mode over a list with rows and a positive page size the summary "Showing x to y of z"
  -- counts the rows on the page: y is x less one plus their number, x is positive, and y is at most z.
  pub range-visible_items :
      (s : TableState)
      → 0 < s.client_page_size
      → 0 < length items
      → (range_end (pagination_props table s) + 1
          ≡ range_start (pagination_props table s) + length (visible_items table s))
        × (0 < range_start (pagination_props table s))
        × (range_end (pagination_props table s) ≤ length items)
  unfolding range_start range_end pagination_props visible_items effective_total effective_page_size
  range-visible_items s h k =
      let c = current_page table s in
      let rows = s.client_page_size in
      let from = (c - 1) * rows in
      let bounds = current_page_bounds table s in
      let next = page-suc c rows bounds.0 in
      let inside = page-lt c (total_pages table s) rows (length items) bounds.1 (last_page s h k) in
      let size = length-take (c * rows - from) (drop from items) in
      let left = length-drop from items in
      (ground (arith, next, inside, size, left), ground arith, ground arith)
