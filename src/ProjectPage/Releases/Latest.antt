-- ===== src/ProjectPage/Releases/Latest.antt =====
-- Which releases are listed, and whose cycles are shown under the release that is open.
use testnexa.Base.{
  ◌≡◌, refl, ap, ◌∙◌, ℕ, String, Bool, true, false, ◌&&◌, ◌==◌, ◌⊎◌, inl, inr, Option, none, some,
  List, [], ◌∷◌, if◌then◌else◌, if_keeps, num_eq,
}
use testnexa.Workflow.{FieldMessage, Reply, ok, failed, error_message, receive_load}
use testnexa.TestPlan.{TestCycleSummary, ReleaseSummary}
use testnexa.ProjectPage.{field_error}
use testnexa.ProjectPage.Releases.{
  Order, Query, Section, query_of, refused, is_expanded, fetch_releases, receive_releases, set_page,
  toggle_sort, create_settled, toggle_expand, receive_cycles, Event, open_modal, close_modal,
  sort_toggled, submitted, page_changed, page_size_changed, releases_answered, created,
  expand_toggled, cycles_answered, step, after,
}

-- The release is the one that is open.
abbrev pub is_release : Option String → String → Bool
is_release none id = false
is_release (some other) id = other == id

-- What the history alone says: the release that is open, the latest answer for cycles that has not
-- failed since a release was opened, with the release that it is about, and the latest page.
abbrev pub open_release : List Event → Option String
open_release [] = none
open_release (expand_toggled id ∷ es) = if is_release (open_release es) id then none else some id
open_release (_ ∷ es) = open_release es

abbrev pub latest_answer : List Event → Option (String × List TestCycleSummary)
latest_answer [] = none
latest_answer (expand_toggled id ∷ es) =
    let before = latest_answer es in if is_release (open_release es) id then before else none
latest_answer (cycles_answered id (ok cycles) ∷ es) = some (id, cycles)
latest_answer (_ ∷ es) = latest_answer es

abbrev pub latest_page : List Event → List ReleaseSummary × ℕ
latest_page [] = ([], 0)
latest_page (releases_answered query (ok page) ∷ es) = page
latest_page (_ ∷ es) = latest_page es

abbrev pub cycles_of : Option (String × List TestCycleSummary) → List TestCycleSummary
cycles_of none = []
cycles_of (some (id, cycles)) = cycles

-- The query has been sent.
abbrev pub IsSent : Query → List Query → Type 0
IsSent query [] = ⊥
IsSent query (q ∷ qs) = (query ≡ q) ⊎ IsSent query qs

-- A section with this open release, these cycles and this page, which has asked for the page that its
-- controls are set to.
abbrev pub Shows :
    Option String
    → Option (String × List TestCycleSummary)
    → List ReleaseSummary × ℕ
    → Section
    → Type 0
Shows id answer page s =
    (s.expanded_id ≡ id)
    × (s.cycles.value ≡ cycles_of answer)
    × (s.releases.value ≡ page)
    × IsSent (query_of s) s.sent

open-is_release : (o : Option String) (id : String) → is_expanded o id ≡ is_release o id
unfolding is_expanded
open-is_release none id = refl
open-is_release (some other) id = refl

module _ (id : Option String) (answer : Option (String × List TestCycleSummary))
    (page : List ReleaseSummary × ℕ) where
  -- A request of any query leaves the query of the controls sent.
  fetch-Shows :
      (query : Query) (s : Section)
      → Shows id answer page s
      → Shows id answer page (fetch_releases query s)
  unfolding fetch_releases
  fetch-Shows query s h = (h.0, h.1, h.2, inr h.3)

  set_page-Shows :
      (number size : ℕ) (s : Section)
      → Shows id answer page s
      → Shows id answer page (set_page number size s)
  unfolding set_page fetch_releases
  set_page-Shows number size s h =
      if_keeps (Shows id answer page)
        (num_eq number s.releases_page && num_eq size s.releases_page_size) _ _ (λ _. h)
        (λ _. (h.0, h.1, h.2, inl refl))

  toggle_sort-Shows : (s : Section) → Shows id answer page s → Shows id answer page (toggle_sort s)
  unfolding toggle_sort fetch_releases
  toggle_sort-Shows s h = (h.0, h.1, h.2, inl refl)

  refused-Shows :
      (version : Option FieldMessage) (message : String) (s : Section)
      → Shows id answer page s
      → Shows id answer page (refused version message s)
  unfolding refused
  refused-Shows (some version) message s h = h
  refused-Shows none message s h = h

  create_settled-Shows :
      (order_then : Order) (size_then : ℕ) (reply : Reply (Unit {0})) (s : Section)
      → Shows id answer page s
      → Shows id answer page (create_settled order_then size_then reply s)
  unfolding create_settled
  create_settled-Shows order_then size_then (ok _) s h =
      set_page-Shows 1 s.releases_page_size _ (fetch-Shows _ (record s { show_modal = false }) h)
  create_settled-Shows order_then size_then (failed e) s h =
      refused-Shows (field_error e "version_label") (error_message e) s h

  toggled-Shows :
      (b : Bool) (i : String) (s : Section)
      → Shows id answer page s
      → Shows (if b then none else some i) (if b then answer else none) page (
          if b then record s { expanded_id = none } else record s {
            expanded_id = some i;
            cycles = record { value = []; loading = true; load_error = none };
          })
  toggled-Shows true i s h = (refl, h.1, h.2, h.3)
  toggled-Shows false i s h = (refl, refl, h.2, h.3)

  toggle-Shows :
      (i : String) (s : Section)
      → Shows id answer page s
      → Shows
          (if is_release id i then none else some i)
          (if is_release id i then answer else none)
          page
          (toggle_expand i s)
  unfolding toggle_expand
  toggle-Shows i s h =
      let same : is_expanded s.expanded_id i ≡ is_release id i =
        open-is_release s.expanded_id i ∙ ap (λ o. is_release o i) h.0 in
      rw same (toggled-Shows (is_release id i) i s h)

-- After every history, with answers at any time and in any order: the release that is open is the one
-- that the toggles leave open, and its cycles are those of the latest answer that has come, and not
-- failed, since a release was opened, whichever release that answer is about; the releases that are
-- listed are the page of the latest answer that has not failed, whatever it was asked for with; and
-- the page that the order, the page number and the size of the controls describe has been asked for.
pub after-IsListing :
    (es : List Event) → Shows (open_release es) (latest_answer es) (latest_page es) (after es)
unfolding after step receive_releases receive_cycles receive_load
after-IsListing [] = (refl, refl, refl, inl refl)
after-IsListing (open_modal ∷ es) = after-IsListing es
after-IsListing (close_modal ∷ es) = after-IsListing es
after-IsListing (submitted ∷ es) = after-IsListing es
after-IsListing (sort_toggled ∷ es) =
    toggle_sort-Shows (open_release es) (latest_answer es) (latest_page es) (after es)
      (after-IsListing es)
after-IsListing (page_changed number ∷ es) =
    set_page-Shows (open_release es) (latest_answer es) (latest_page es) number
      (after es).releases_page_size (after es) (after-IsListing es)
after-IsListing (page_size_changed size ∷ es) =
    set_page-Shows (open_release es) (latest_answer es) (latest_page es) (after es).releases_page
      size (after es) (after-IsListing es)
after-IsListing (releases_answered query (ok page) ∷ es) =
    let h = after-IsListing es in (h.0, h.1, refl, h.3)
after-IsListing (releases_answered query (failed e) ∷ es) = after-IsListing es
after-IsListing (created order_then size_then reply ∷ es) =
    create_settled-Shows (open_release es) (latest_answer es) (latest_page es) order_then size_then
      reply (after es) (after-IsListing es)
after-IsListing (expand_toggled id ∷ es) =
    toggle-Shows (open_release es) (latest_answer es) (latest_page es) id (after es)
      (after-IsListing es)
after-IsListing (cycles_answered id (ok cycles) ∷ es) =
    let h = after-IsListing es in (h.0, refl, h.2, h.3)
after-IsListing (cycles_answered id (failed e) ∷ es) = after-IsListing es
