-- ===== src/Tests/TestPlan.antt =====
-- The page of a test plan in a concrete history, and an edit of its plan.
use testnexa.Base.{String, ◌≡◌, refl, none, List, [], ◌∷◌, if◌then◌else◌}
use testnexa.Base.Dict.{lookup}
use testnexa.Json.{str}
use testnexa.Workflow.{ok, failed, other}
use testnexa.TestPlan.{TestSuiteSummary, Values}
use testnexa.TestPlan.Edit.{edit_payload, is_writable, sent_value, lookup-edit_payload}
use testnexa.TestPlan.Page.{suites, coverage}
use testnexa.TestPlan.Page.Events.{
  Event, open_include, pick_suite, submit_include, suite_included, suites_answered, remove_suite,
  suite_removed, after,
}
use testnexa.TestPlan.Page.History.{IsOf, required}
use testnexa.TestPlan.Page.Latest.{after-IsLoaded}
use testnexa.Tests.Samples.{sample_fields}

abbrev new_values : Values
new_values = ("name", str "Plan") ∷ ("status", str "draft") ∷ ("owner", str "me") ∷ []

lookup-edit_payload_example : lookup "status" (edit_payload sample_fields new_values "draft") ≡ (
    if is_writable sample_fields "status"
    then sent_value "draft" "status" (lookup "status" new_values)
    else none)
lookup-edit_payload_example = lookup-edit_payload "status" new_values "draft" sample_fields

abbrev suite_of : String → TestSuiteSummary
suite_of id = record { id = id; project_id = "p"; name = id; purpose = none }

-- A suite is included, its removal fails, and the answer to the first request comes last.
abbrev an_afternoon : List Event
an_afternoon =
    suites_answered (ok [])
    ∷ suites_answered (ok (suite_of "a" ∷ []))
    ∷ suite_removed (failed other)
    ∷ remove_suite "a"
    ∷ suite_included (ok tt)
    ∷ submit_include
    ∷ pick_suite "a"
    ∷ open_include
    ∷ []

an_afternoon-shown : (after an_afternoon).suites.value ≡ []
unfolding after
an_afternoon-shown = refl

an_afternoon-requested :
    (after an_afternoon).requested ≡ coverage ∷ suites ∷ coverage ∷ suites ∷ required []
unfolding after
an_afternoon-requested = refl

after-IsLoaded_example : IsOf an_afternoon (required an_afternoon) (after an_afternoon)
after-IsLoaded_example = after-IsLoaded an_afternoon
