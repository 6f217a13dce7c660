-- ===== src/Paging/Pages.antt =====
-- The pages of client mode: each is in range, none is longer than the page size, and together they
-- are the list.
use testnexa.Base.{
  ℕ, zero, suc, ◌+◌, ◌-◌, ◌*◌, ◌≤◌, ◌<◌, max, ◌≡◌, refl, ◌∙◌, List, [], ◌++◌, arith, Option, length,
  take, drop, take-add, take-all,
}
use testnexa.Paging.{
  client, TableProps, TableState, ceil_div, effective_page_size, effective_total, total_pages,
  current_page, visible_items,
}

le-ceil_div : (a b : ℕ) → 0 < b → a ≤ ceil_div a b * b
unfolding ceil_div
le-ceil_div a b h = grind arith

mul-max : (a b : ℕ) → a * b ≤ max 1 a * b
mul-max a b = grind arith

module _ {A : Type 0} (items : List A) (total : Option ℕ) (default_size : ℕ)
    (page size : Option ℕ) where
  -- A table in client mode.
  abbrev table : TableProps A
  table = record {
    mode = client;
    items = items;
    total = total;
    default_page_size = default_size;
    page = page;
    page_size = size;
  }

  abbrev pub at_page : ℕ → ℕ → TableState
  at_page rows n = record { client_page = n; client_page_size = rows }

  -- The pages 1 to `n`, one behind the other.
  abbrev pub pages : ℕ → ℕ → List A
  pages rows zero = []
  pages rows (suc n) = pages rows n ++ visible_items table (at_page rows (suc n))

  -- A page number that exists is the page that is shown.
  current-at_page :
      (rows n : ℕ)
      → suc n ≤ total_pages table (at_page rows (suc n))
      → current_page table (at_page rows (suc n)) ≡ suc n
  unfolding current_page
  current-at_page rows n h = omega arith

  visible-at_page :
      (rows n : ℕ)
      → suc n ≤ total_pages table (at_page rows (suc n))
      → visible_items table (at_page rows (suc n)) ≡ take rows (drop (n * rows) items)
  unfolding visible_items
  visible-at_page rows n h =
      let e : suc n * rows - (suc n - 1) * rows ≡ rows = grind arith in
      let d : suc n - 1 ≡ n = omega arith in rw (current-at_page rows n h, e, d) refl

  -- How many pages there are does not depend on the page that is shown.
  pages_same :
      (rows n : ℕ) → n ≤ total_pages table (at_page rows 1) → n ≤ total_pages table (at_page rows n)
  unfolding total_pages
  pages_same rows n h = h

  pages-take :
      (rows n : ℕ) → n ≤ total_pages table (at_page rows 1) → pages rows n ≡ take (n * rows) items
  pages-take rows zero h = let e : zero * rows ≡ 0 = omega arith in rw e refl
  pages-take rows (suc n) h =
      let e : suc n * rows ≡ n * rows + rows = omega arith in
      rw (pages-take rows n (omega arith), visible-at_page rows n (pages_same rows (suc n) h), e)
        (take-add (n * rows) rows items)

  covered : (rows : ℕ) → 0 < rows → length items ≤ total_pages table (at_page rows 1) * rows
  unfolding total_pages effective_total effective_page_size
  covered rows h =
      omega (arith, le-ceil_div (length items) rows h, mul-max (ceil_div (length items) rows) rows)

  -- In client mode with a positive page size the pages from the first to the last, one behind the
  -- other, are the whole list: no row is lost, repeated or moved.
  pub pages-total : (rows : ℕ) → 0 < rows → pages rows (total_pages table (at_page rows 1)) ≡ items
  pages-total rows h =
      pages-take rows (total_pages table (at_page rows 1)) (omega arith)
      ∙ take-all (total_pages table (at_page rows 1) * rows) items (covered rows h)
