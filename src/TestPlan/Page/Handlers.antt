-- ===== src/TestPlan/Page/Handlers.antt =====
-- pages/workflows/TestPlanDetail/TestPlanDetail.tsx: the handlers of the page, each up to its request and
-- then on once that has ended.
use testnexa.Base.{
  String, Bool, false, not, Option, none, some, List, truthy, get_or, if◌then◌else◌,
}
use testnexa.Base.Dict.{insert}
use testnexa.Json.{str}
use testnexa.Workflow.{Reply, ok, failed, error_message, server_field_errors}
use testnexa.Entity.{FieldConfig}
use testnexa.TestPlan.{
  TestPlanSummary, EntryExitCriteriaSummary, TestCycleSummary, CreateTestCyclePayload, Values,
}
use testnexa.TestPlan.Edit.{edit_payload}
use testnexa.TestPlan.Page.{
  Request, update_test_plan, add_test_suite, remove_test_suite, create_criteria, update_criteria,
  delete_criteria, create_environment, create_test_cycle, update_test_cycle, delete_test_cycle,
  FieldErrors, Page, post, fetch_plan, fetch_included_suites, fetch_coverage, fetch_criteria,
  fetch_cycles, fetch_environment_labels,
}

unfoldable pub edit_failed : FieldErrors → String → Page → Page
edit_failed (some errors) message p = record p { edit_field_errors = some errors }
edit_failed none message p = record p { edit_api_error = some message }

unfoldable pub edit_settled : Reply (Unit {0}) → Page → Page
unfolding edit_failed fetch_plan
edit_settled (ok _) p = fetch_plan (record p { show_edit_modal = false })
edit_settled (failed e) p = edit_failed (server_field_errors e) (error_message e) p

unfoldable pub edit_plan : Option TestPlanSummary → List FieldConfig → Values → Page → Page
edit_plan none fields values p = p
edit_plan (some plan) fields values p =
    post (update_test_plan (edit_payload fields values plan.status))
      (record p { edit_api_error = none; edit_field_errors = none })

-- `onSubmitEdit`, for the fields of the form and the plan of the page.
unfoldable pub on_submit_edit : List FieldConfig → Values → Page → Page
unfolding edit_plan
on_submit_edit fields values p = edit_plan p.plan.value fields values p

unfoldable pub on_submit_include : Page → Page
on_submit_include p =
    if not (truthy p.selected_suite_id)
    then p
    else post (add_test_suite p.selected_suite_id) (record p { membership_error = none })

unfoldable pub include_settled : Reply (Unit {0}) → Page → Page
unfolding fetch_included_suites fetch_coverage
include_settled (ok _) p =
    fetch_coverage (fetch_included_suites (record p { show_include_modal = false }))
include_settled (failed e) p = record p {
  show_include_modal = false;
  membership_error = some (error_message e);
}

unfoldable pub on_remove_suite : String → Page → Page
on_remove_suite id p = post (remove_test_suite id) (record p { membership_error = none })

-- The error of a deletion that has failed replaces the one that is shown.
unfoldable pub error_or : Reply (Unit {0}) → Option String → Option String
error_or (ok _) shown = shown
error_or (failed e) shown = some (error_message e)

-- The two sections are fetched in any case.
unfoldable pub remove_settled : Reply (Unit {0}) → Page → Page
unfolding error_or fetch_included_suites fetch_coverage
remove_settled reply p =
    fetch_coverage
      (fetch_included_suites (record p { membership_error = error_or reply p.membership_error }))

-- The request of `onSubmitCriteria`, for the row that is edited.
unfoldable pub save_criteria : String → Option EntryExitCriteriaSummary → Values → Request
save_criteria test_plan_id none values =
    create_criteria (insert "test_plan_id" (str test_plan_id) values)
save_criteria test_plan_id (some row) values = update_criteria row.id values

unfoldable pub submit_criteria_of :
    Option (Option EntryExitCriteriaSummary) → String → Values → Page → Page
unfolding save_criteria
submit_criteria_of none test_plan_id values p = p
submit_criteria_of (some editing) test_plan_id values p =
    post (save_criteria test_plan_id editing values)
      (record p { criteria_error = none; criteria_field_errors = none })

unfoldable pub on_submit_criteria : String → Values → Page → Page
unfolding submit_criteria_of
on_submit_criteria test_plan_id values p = submit_criteria_of p.criteria_modal test_plan_id values p

unfoldable pub criteria_failed : FieldErrors → String → Page → Page
criteria_failed (some errors) message p = record p { criteria_field_errors = some errors }
criteria_failed none message p = record p { criteria_modal = none; criteria_error = some message }

unfoldable pub criteria_settled : Reply (Unit {0}) → Page → Page
unfolding criteria_failed fetch_criteria
criteria_settled (ok _) p = fetch_criteria (record p { criteria_modal = none })
criteria_settled (failed e) p = criteria_failed (server_field_errors e) (error_message e) p

unfoldable pub on_delete_criteria : String → Page → Page
on_delete_criteria id p = post (delete_criteria id) (record p { criteria_error = none })

unfoldable pub criteria_deleted : Reply (Unit {0}) → Page → Page
unfolding error_or fetch_criteria
criteria_deleted reply p =
    fetch_criteria (record p { criteria_error = error_or reply p.criteria_error })

-- The values of the form of a new cycle, after its schema.
pub record NewTestCycleFormValues : Type 0 where
  pub release_id : String
  pub environment_id : Option String
  pub name : String
  pub start_date : Option String
  pub end_date : Option String
  pub new_environment : Bool
  pub new_environment_name : Option String
  pub new_environment_config_notes : Option String

-- `value ? value : null`
abbrev pub or_null : Option String → Option String
or_null none = none
or_null (some s) = if truthy s then some s else none

unfoldable pub cycle_payload : NewTestCycleFormValues → String → CreateTestCyclePayload
cycle_payload values environment_id = record {
  release_id = values.release_id;
  environment_id = environment_id;
  name = values.name;
  start_date = or_null values.start_date;
  end_date = or_null values.end_date;
}

-- The cycle is created in an environment that is there.
unfoldable pub create_cycle : NewTestCycleFormValues → String → Page → Page
unfolding cycle_payload
create_cycle values environment_id p =
    post (create_test_cycle (cycle_payload values environment_id)) p

-- `onSubmitCycle`, up to its first request: a new environment comes first.
unfoldable pub on_submit_cycle : NewTestCycleFormValues → Page → Page
unfolding create_cycle
on_submit_cycle values p =
    let cleared = record p { cycle_error = none } in
    if values.new_environment
    then post
        (create_environment values.new_environment_name
          (or_null values.new_environment_config_notes))
        cleared
    else create_cycle values (get_or values.environment_id "") cleared

unfoldable pub cycle_settled : Reply (Unit {0}) → Page → Page
unfolding fetch_cycles fetch_environment_labels
cycle_settled (ok _) p =
    fetch_environment_labels (fetch_cycles (record p { show_cycle_modal = false }))
cycle_settled (failed e) p =
    fetch_environment_labels
      (record p { show_cycle_modal = false; cycle_error = some (error_message e) })

-- The request of the environment has ended, with its id where it was created.
unfoldable pub environment_settled : NewTestCycleFormValues → Reply String → Page → Page
unfolding create_cycle cycle_settled
environment_settled values (ok environment_id) p = create_cycle values environment_id p
environment_settled values (failed e) p = cycle_settled (failed e) p

unfoldable pub edit_cycle : Option TestCycleSummary → Values → Page → Page
edit_cycle none values p = p
edit_cycle (some row) values p =
    post (update_test_cycle row.id values)
      (record p { cycle_error = none; cycle_field_errors = none })

unfoldable pub on_submit_cycle_edit : Values → Page → Page
unfolding edit_cycle
on_submit_cycle_edit values p = edit_cycle p.cycle_modal values p

unfoldable pub cycle_edit_failed : FieldErrors → String → Page → Page
cycle_edit_failed (some errors) message p = record p { cycle_field_errors = some errors }
cycle_edit_failed none message p = record p { cycle_modal = none; cycle_error = some message }

unfoldable pub cycle_edit_settled : Reply (Unit {0}) → Page → Page
unfolding cycle_edit_failed fetch_cycles fetch_environment_labels
cycle_edit_settled (ok _) p =
    fetch_environment_labels (fetch_cycles (record p { cycle_modal = none }))
cycle_edit_settled (failed e) p = cycle_edit_failed (server_field_errors e) (error_message e) p

unfoldable pub on_delete_cycle : String → Page → Page
on_delete_cycle id p = post (delete_test_cycle id) (record p { cycle_error = none })

unfoldable pub cycle_deleted : Reply (Unit {0}) → Page → Page
unfolding error_or fetch_cycles
cycle_deleted reply p = fetch_cycles (record p { cycle_error = error_or reply p.cycle_error })
