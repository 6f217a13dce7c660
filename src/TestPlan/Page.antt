-- ===== src/TestPlan/Page.antt =====
-- pages/workflows/TestPlanDetail/TestPlanDetail.tsx: the state of the page, and the requests that load its
-- sections. A request is answered at any later time.
pub mod Handlers
pub mod Events
pub mod History
pub mod Latest
use testnexa.Base.{
  String, Bool, true, false, not, ◌==◌, Option, none, some, List, [], ◌∷◌, map, truthy, get_or,
  if◌then◌else◌,
}
use testnexa.Base.Dict.{insert}
use testnexa.Json.{str}
use testnexa.Workflow.{
  Failure, Reply, ok, failed, map_reply, error_message, server_field_errors, Load, initial_load,
  begin_load, receive_load,
}
use testnexa.Entity.{FieldConfig}
use testnexa.TestPlan.{
  TestPlanSummary, TestSuiteSummary, TestCaseSummary, EntryExitCriteriaSummary, TestCycleSummary,
  ReleaseSummary, EnvironmentRow, CreateTestCyclePayload, Values,
}
use testnexa.TestPlan.Edit.{edit_payload}

-- The sections of the page, and the options and labels that it loads.
pub data Part : Type 0 where
  plan suites coverage criteria project_suites cycles releases environments : Part

-- A request that writes.
pub data Request : Type 0 where
  update_test_plan : Values → Request
  add_test_suite remove_test_suite : String → Request
  create_criteria : Values → Request
  update_criteria : String → Values → Request
  delete_criteria : String → Request
  create_environment : Option String → Option String → Request
  create_test_cycle : CreateTestCyclePayload → Request
  update_test_cycle : String → Values → Request
  delete_test_cycle : String → Request

abbrev pub FieldErrors : Type 0
FieldErrors = Option (List (String × String))

pub record Page : Type 0 where
  pub plan : Load (Option TestPlanSummary)
  pub suites : Load (List TestSuiteSummary)
  pub coverage : Load (List TestCaseSummary)
  pub criteria : Load (List EntryExitCriteriaSummary)
  pub cycles : Load (List TestCycleSummary)
  pub project_suites : List TestSuiteSummary
  pub release_labels : List (String × String)
  pub environment_labels : List (String × String)
  pub show_edit_modal : Bool
  pub edit_api_error : Option String
  pub edit_field_errors : FieldErrors
  pub membership_error : Option String
  pub show_include_modal : Bool
  pub selected_suite_id : String
  pub criteria_error : Option String
  -- `none` within is a creation.
  pub criteria_modal : Option (Option EntryExitCriteriaSummary)
  pub criteria_field_errors : FieldErrors
  pub cycle_error : Option String
  pub show_cycle_modal : Bool
  pub cycle_modal : Option TestCycleSummary
  pub cycle_field_errors : FieldErrors
  -- the requests so far, the latest first: those that load a part, and those that write
  pub requested : List Part
  pub posted : List Request

-- The page is there, and the effects of its first render have sent their requests.
abbrev pub start : Page
start = record {
  plan = initial_load none;
  suites = initial_load [];
  coverage = initial_load [];
  criteria = initial_load [];
  cycles = initial_load [];
  project_suites = [];
  release_labels = [];
  environment_labels = [];
  show_edit_modal = false;
  edit_api_error = none;
  edit_field_errors = none;
  membership_error = none;
  show_include_modal = false;
  selected_suite_id = "";
  criteria_error = none;
  criteria_modal = none;
  criteria_field_errors = none;
  cycle_error = none;
  show_cycle_modal = false;
  cycle_modal = none;
  cycle_field_errors = none;
  requested =
      environments ∷ releases ∷ cycles ∷ project_suites ∷ criteria ∷ coverage ∷ suites ∷ plan ∷ [];
  posted = [];
}

-- A request that writes is sent.
abbrev pub post : Request → Page → Page
post request p = record p { posted = request ∷ p.posted }

-- The fetches, up to their requests.
unfoldable pub fetch_plan : Page → Page
fetch_plan p = record p { plan = begin_load p.plan; requested = plan ∷ p.requested }

unfoldable pub fetch_included_suites : Page → Page
fetch_included_suites p = record p {
  suites = begin_load p.suites;
  requested = suites ∷ p.requested;
}

unfoldable pub fetch_coverage : Page → Page
fetch_coverage p = record p { coverage = begin_load p.coverage; requested = coverage ∷ p.requested }

unfoldable pub fetch_criteria : Page → Page
fetch_criteria p = record p { criteria = begin_load p.criteria; requested = criteria ∷ p.requested }

unfoldable pub fetch_cycles : Page → Page
fetch_cycles p = record p { cycles = begin_load p.cycles; requested = cycles ∷ p.requested }

unfoldable pub fetch_environment_labels : Page → Page
fetch_environment_labels p = record p { requested = environments ∷ p.requested }

-- The rest of the fetches: an answer is stored, whatever has been requested since.
unfoldable pub receive_plan : Reply TestPlanSummary → Page → Page
unfolding receive_load
receive_plan reply p = record p { plan = receive_load (map_reply some reply) p.plan }

unfoldable pub receive_suites : Reply (List TestSuiteSummary) → Page → Page
unfolding receive_load
receive_suites reply p = record p { suites = receive_load reply p.suites }

unfoldable pub receive_coverage : Reply (List TestCaseSummary) → Page → Page
unfolding receive_load
receive_coverage reply p = record p { coverage = receive_load reply p.coverage }

unfoldable pub receive_criteria : Reply (List EntryExitCriteriaSummary) → Page → Page
unfolding receive_load
receive_criteria reply p = record p { criteria = receive_load reply p.criteria }

unfoldable pub receive_cycles : Reply (List TestCycleSummary) → Page → Page
unfolding receive_load
receive_cycles reply p = record p { cycles = receive_load reply p.cycles }

-- A failure leaves nothing to choose from.
unfoldable pub or_nothing : {A : Type 0} → Reply (List A) → List A
or_nothing (ok items) = items
or_nothing (failed e) = []

unfoldable pub receive_project_suites : Reply (List TestSuiteSummary) → Page → Page
unfolding or_nothing
receive_project_suites reply p = record p { project_suites = or_nothing reply }

abbrev pub release_label : ReleaseSummary → String × String
release_label release = (release.id, release.version_label)

unfoldable pub receive_release_labels : Reply (List ReleaseSummary) → Page → Page
unfolding or_nothing
receive_release_labels reply p = record p { release_labels = map release_label (or_nothing reply) }

abbrev pub environment_label : EnvironmentRow → String × String
environment_label row = (row.id, get_or row.name row.id)

unfoldable pub receive_environment_labels : Reply (List EnvironmentRow) → Page → Page
unfolding or_nothing
receive_environment_labels reply p = record p {
  environment_labels = map environment_label (or_nothing reply);
}
