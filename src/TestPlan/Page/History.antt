-- ===== src/TestPlan/Page/History.antt =====
-- What a history of the page says of its sections and of its requests.
use testnexa.Base.{◌≡◌, Option, none, some, List, [], ◌∷◌, ◌++◌}
use testnexa.Workflow.{ok, failed}
use testnexa.TestPlan.{
  TestPlanSummary, TestSuiteSummary, TestCaseSummary, EntryExitCriteriaSummary, TestCycleSummary,
}
use testnexa.TestPlan.Page.{
  Part, plan, suites, coverage, criteria, project_suites, cycles, releases, environments, Page,
}
use testnexa.TestPlan.Page.Events.{
  Event, plan_updated, suite_included, suite_removed, criteria_saved, criterion_deleted,
  cycle_created, cycle_updated, test_cycle_deleted, environment_created, plan_answered,
  suites_answered, coverage_answered, criteria_answered, cycles_answered,
}

-- The latest answer for a section that has not failed, from the history alone.
abbrev pub latest_plan : List Event → Option TestPlanSummary
latest_plan [] = none
latest_plan (plan_answered (ok it) ∷ es) = some it
latest_plan (_ ∷ es) = latest_plan es

abbrev pub latest_suites : List Event → List TestSuiteSummary
latest_suites [] = []
latest_suites (suites_answered (ok items) ∷ es) = items
latest_suites (_ ∷ es) = latest_suites es

abbrev pub latest_coverage : List Event → List TestCaseSummary
latest_coverage [] = []
latest_coverage (coverage_answered (ok items) ∷ es) = items
latest_coverage (_ ∷ es) = latest_coverage es

abbrev pub latest_criteria : List Event → List EntryExitCriteriaSummary
latest_criteria [] = []
latest_criteria (criteria_answered (ok items) ∷ es) = items
latest_criteria (_ ∷ es) = latest_criteria es

abbrev pub latest_cycles : List Event → List TestCycleSummary
latest_cycles [] = []
latest_cycles (cycles_answered (ok items) ∷ es) = items
latest_cycles (_ ∷ es) = latest_cycles es

-- The parts that have to be loaded again when a request has ended: those that it may have changed.
abbrev pub concerned : Event → List Part
concerned (plan_updated (ok _)) = plan ∷ []
concerned (suite_included (ok _)) = coverage ∷ suites ∷ []
concerned (suite_removed reply) = coverage ∷ suites ∷ []
concerned (criteria_saved (ok _)) = criteria ∷ []
concerned (criterion_deleted reply) = criteria ∷ []
concerned (cycle_created (ok _)) = environments ∷ cycles ∷ []
concerned (cycle_created (failed e)) = environments ∷ []
concerned (environment_created values (failed e)) = environments ∷ []
concerned (cycle_updated (ok _)) = environments ∷ cycles ∷ []
concerned (test_cycle_deleted reply) = cycles ∷ []
concerned _ = []

-- All that has to be requested: every part once, and then what each event concerns.
abbrev pub required : List Event → List Part
required [] =
    environments ∷ releases ∷ cycles ∷ project_suites ∷ criteria ∷ coverage ∷ suites ∷ plan ∷ []
required (e ∷ es) = concerned e ++ required es

-- A page whose five sections have these values, and which has sent these requests.
abbrev pub Shows :
    Option TestPlanSummary
    → List TestSuiteSummary
    → List TestCaseSummary
    → List EntryExitCriteriaSummary
    → List TestCycleSummary
    → List Part
    → Page
    → Type 0
Shows the_plan the_suites the_coverage the_criteria the_cycles parts p =
    (p.plan.value ≡ the_plan)
    × (p.suites.value ≡ the_suites)
    × (p.coverage.value ≡ the_coverage)
    × (p.criteria.value ≡ the_criteria)
    × (p.cycles.value ≡ the_cycles)
    × (p.requested ≡ parts)

-- What a page shows after a history.
abbrev pub IsOf : List Event → List Part → Page → Type 0
IsOf es parts p =
    Shows (latest_plan es) (latest_suites es) (latest_coverage es) (latest_criteria es)
      (latest_cycles es) parts p
