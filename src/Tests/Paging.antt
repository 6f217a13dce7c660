-- ===== src/Tests/Paging.antt =====
-- Paging over a short list.
use testnexa.Base.{ℕ, ◌+◌, ◌≤◌, ◌<◌, ◌≡◌, none, List, [], ◌∷◌, length, arith}
use testnexa.Paging.{
  TableProps, TableState, client, total_pages, visible_items, pagination_props, range_start,
  range_end,
}
use testnexa.Paging.Pages.{pages, at_page, pages-total}
use testnexa.Paging.Summary.{range-visible_items}

abbrev five : List ℕ
five = 1 ∷ 2 ∷ 3 ∷ 4 ∷ 5 ∷ []

abbrev five_rows : TableProps ℕ
five_rows = record {
  mode = client;
  items = five;
  total = none;
  default_page_size = 25;
  page = none;
  page_size = none;
}

abbrev past_the_end : TableState
past_the_end = record { client_page = 9; client_page_size = 2 }

pages-total_example :
    pages five none 25 none none 2 (total_pages five_rows (at_page five none 25 none none 2 1))
    ≡ five
pages-total_example = pages-total five none 25 none none 2 (omega arith)

range-visible_items_example :
    (range_end (pagination_props five_rows past_the_end) + 1
      ≡ range_start (pagination_props five_rows past_the_end)
        + length (visible_items five_rows past_the_end))
    × (0 < range_start (pagination_props five_rows past_the_end))
    × (range_end (pagination_props five_rows past_the_end) ≤ length five)
range-visible_items_example =
    range-visible_items five none 25 none none past_the_end (omega arith) (omega arith)
