-- ===== src/Tests/ProjectPage.antt =====
-- The sections of the page of a project in concrete histories, the latest event first.
use testnexa.Base.{◌≡◌, refl, ℕ, String, none, some, List, [], ◌∷◌}
use testnexa.Workflow.{ok, failed, other}
use testnexa.TestPlan.{TestCaseSummary, ReleaseSummary}
use testnexa.ProjectPage.Keyed as Keyed
use testnexa.ProjectPage.Keyed.Latest as KeyedLatest
use testnexa.ProjectPage.Suites as Suites
use testnexa.ProjectPage.Suites.Latest as Members
use testnexa.ProjectPage.Releases as Releases
use testnexa.ProjectPage.Releases.Latest as Listing

-- Two rows are opened, and their answers come in the other order.
abbrev two_rows : List (Keyed.Event ℕ)
two_rows =
    Keyed.answered "r1" (ok 1)
    ∷ Keyed.answered "r2" (failed other)
    ∷ Keyed.toggled "r2"
    ∷ Keyed.toggled "r1"
    ∷ []

after-Shows_example :
    KeyedLatest.Shows "r1"
      (KeyedLatest.is_open_after "r1" two_rows)
      (KeyedLatest.latest "r1" two_rows)
      (Keyed.after two_rows)
after-Shows_example = KeyedLatest.after-Shows "r1" two_rows

abbrev case_of : String → TestCaseSummary
case_of id = record {
  id = id;
  test_condition_id = none;
  project_id = none;
  test_level_id = "l";
  test_type_id = "t";
  created_by_actor_id = "me";
  title = id;
  description = none;
  preconditions = none;
  expected_result = none;
  status = "draft";
}

-- The suite `a` is opened, then `b`, and the answer for `a` comes last.
abbrev suite_events : List Suites.Event
suite_events =
    Suites.members_answered "a" (ok (case_of "of a" ∷ []))
    ∷ Suites.members_answered "b" (ok (case_of "of b" ∷ []))
    ∷ Suites.toggle_members "b"
    ∷ Suites.toggle_members "a"
    ∷ Suites.created (failed other)
    ∷ Suites.submit_suite "new" ""
    ∷ []

-- The members of `a` are shown under `b`.
suite_events-members :
    ((Suites.after suite_events).expanded_suite_id ≡ some "b")
    × ((Suites.after suite_events).members.value ≡ case_of "of a" ∷ [])
unfolding Suites.after
suite_events-members = (refl, refl)

after-IsOfHistory_example :
    Members.Shows
      (Members.open_suite suite_events)
      (Members.latest_answer suite_events)
      (Members.latest_suites suite_events)
      (Members.required suite_events)
      (Suites.after suite_events)
after-IsOfHistory_example = Members.after-IsOfHistory suite_events

abbrev release_of : String → ReleaseSummary
release_of label = record {
  id = label;
  project_id = "p";
  version_label = label;
  target_date = none;
}

-- A release is created, with the order of an older render, and the order is changed in between.
abbrev release_events : List Releases.Event
release_events =
    Releases.releases_answered (record { order = Releases.asc; page = 1; page_size = 25 })
      (ok (release_of "v1" ∷ [], 1))
    ∷ Releases.created Releases.asc 25 (ok tt)
    ∷ Releases.sort_toggled
    ∷ Releases.submitted
    ∷ Releases.page_changed 2
    ∷ Releases.expand_toggled "v0"
    ∷ []

after-IsListing_example :
    Listing.Shows
      (Listing.open_release release_events)
      (Listing.latest_answer release_events)
      (Listing.latest_page release_events)
      (Releases.after release_events)
after-IsListing_example = Listing.after-IsListing release_events
