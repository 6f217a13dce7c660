-- ===== src/ProjectPage/Releases.antt =====
-- pages/workflows/ProjectDetail/ProjectDetail.tsx: the releases of the project, sorted and in pages, and the
-- cycles of the release that is open. A request is answered at any later time, as an event of its own.
pub mod Latest
use testnexa.Base.{
  ℕ, String, Bool, true, false, ◌&&◌, ◌==◌, Option, none, some, List, [], ◌∷◌, num_eq,
  if◌then◌else◌,
}
use testnexa.Workflow.{
  FieldMessage, Reply, ok, failed, error_message, Load, initial_load, begin_load, receive_load,
}
use testnexa.ProjectPage.{field_error}
use testnexa.TestPlan.{TestCycleSummary, ReleaseSummary}

-- `"asc" | "desc"`
pub data Order : Type 0 where
  asc desc : Order

unfoldable pub flip : Order → Order
flip asc = desc
flip desc = asc

-- The arguments of `fetchReleases`.
pub record Query : Type 0 where
  pub order : Order
  pub page : ℕ
  pub page_size : ℕ

pub record Section : Type 0 where
  -- the rows and the total
  pub releases : Load (List ReleaseSummary × ℕ)
  pub order : Order
  pub releases_page : ℕ
  pub releases_page_size : ℕ
  pub show_modal : Bool
  pub api_error_shown : Option String
  pub version_label_error : Option FieldMessage
  pub expanded_id : Option String
  pub cycles : Load (List TestCycleSummary)
  -- the queries that have been sent, the latest first
  pub sent : List Query

-- The query of the controls.
abbrev pub query_of : Section → Query
query_of s = record { order = s.order; page = s.releases_page; page_size = s.releases_page_size }

-- The page is there, and the first run of the effect has sent its request.
abbrev pub start : Section
start = record {
  releases = initial_load ([], 0);
  order = asc;
  releases_page = 1;
  releases_page_size = 25;
  show_modal = false;
  api_error_shown = none;
  version_label_error = none;
  expanded_id = none;
  cycles = record { value = []; loading = false; load_error = none };
  sent = record { order = asc; page = 1; page_size = 25 } ∷ [];
}

unfoldable pub refused : Option FieldMessage → String → Section → Section
refused (some version) message s = record s { version_label_error = some version }
refused none message s = record s { api_error_shown = some message }

is_expanded : Option String → String → Bool
is_expanded none id = false
is_expanded (some expanded) id = expanded == id

-- `fetchReleases`, up to its request.
unfoldable pub fetch_releases : Query → Section → Section
fetch_releases query s = record s { releases = begin_load s.releases; sent = query ∷ s.sent }

-- The rest of it: the answer is stored, whatever the controls have been set to since.
unfoldable pub receive_releases : Reply (List ReleaseSummary × ℕ) → Section → Section
unfolding receive_load
receive_releases reply s = record s { releases = receive_load reply s.releases }

-- The page and the size are set; the effect runs where one of them has changed.
unfoldable pub set_page : ℕ → ℕ → Section → Section
unfolding fetch_releases
set_page page size s =
    if num_eq page s.releases_page && num_eq size s.releases_page_size
    then s
    else fetch_releases (record { order = s.order; page = page; page_size = size })
        (record s { releases_page = page; releases_page_size = size })

-- The order always changes, so that the effect runs.
unfoldable pub toggle_sort : Section → Section
unfolding fetch_releases flip
toggle_sort s =
    fetch_releases (record { order = flip s.order; page = 1; page_size = s.releases_page_size })
      (record s { order = flip s.order; releases_page = 1 })

-- `onSubmit` once its request has ended, with the order and the size of the render in which it was
-- called: it sends a request of its own, and the effect one where the page has changed.
unfoldable pub create_settled : Order → ℕ → Reply (Unit {0}) → Section → Section
unfolding fetch_releases set_page refused field_error
create_settled order_then size_then (ok _) s = set_page 1 s.releases_page_size (
    fetch_releases (record { order = order_then; page = 1; page_size = size_then })
      (record s { show_modal = false }))
create_settled order_then size_then (failed e) s =
    refused (field_error e "version_label") (error_message e) s

-- `toggleExpand`, up to its request.
unfoldable pub toggle_expand : String → Section → Section
unfolding is_expanded
toggle_expand id s =
    if is_expanded s.expanded_id id then record s { expanded_id = none } else record s {
      expanded_id = some id;
      cycles = record { value = []; loading = true; load_error = none };
    }

-- The rest of it: the answer is stored, whatever release is open by then.
unfoldable pub receive_cycles : Reply (List TestCycleSummary) → Section → Section
unfolding receive_load
receive_cycles reply s = record s { cycles = receive_load reply s.cycles }

pub data Event : Type 0 where
  open_modal close_modal sort_toggled submitted : Event
  page_changed : ℕ → Event
  page_size_changed : ℕ → Event
  releases_answered : Query → Reply (List ReleaseSummary × ℕ) → Event
  created : Order → ℕ → Reply (Unit {0}) → Event
  expand_toggled : String → Event
  cycles_answered : String → Reply (List TestCycleSummary) → Event

unfoldable pub step : Event → Section → Section
unfolding toggle_sort set_page create_settled toggle_expand receive_releases receive_cycles
step open_modal s = record s {
  api_error_shown = none;
  version_label_error = none;
  show_modal = true;
}
step close_modal s = record s { show_modal = false }
step sort_toggled s = toggle_sort s
step submitted s = record s { api_error_shown = none }
step (page_changed page) s = set_page page s.releases_page_size s
step (page_size_changed size) s = set_page s.releases_page size s
step (releases_answered query reply) s = receive_releases reply s
step (created order_then size_then reply) s = create_settled order_then size_then reply s
step (expand_toggled id) s = toggle_expand id s
step (cycles_answered id reply) s = receive_cycles reply s

-- After a history, the latest event first.
unfoldable pub after : List Event → Section
unfolding step
after [] = start
after (e ∷ es) = step e (after es)
