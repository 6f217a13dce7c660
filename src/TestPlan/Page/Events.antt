-- ===== src/TestPlan/Page/Events.antt =====
-- pages/workflows/TestPlanDetail/TestPlanDetail.tsx: what can happen to the page: the clicks, and the ends
-- of the requests, at any time and in any order.
use testnexa.Base.{String, true, false, Option, none, some, List, [], ◌∷◌}
use testnexa.Workflow.{Reply}
use testnexa.Entity.{FieldConfig}
use testnexa.TestPlan.{
  TestPlanSummary, TestSuiteSummary, TestCaseSummary, EntryExitCriteriaSummary, TestCycleSummary,
  ReleaseSummary, EnvironmentRow, Values,
}
use testnexa.TestPlan.Page.{
  Page, start, receive_plan, receive_suites, receive_coverage, receive_criteria, receive_cycles,
  receive_project_suites, receive_release_labels, receive_environment_labels,
}
use testnexa.TestPlan.Page.Handlers.{
  NewTestCycleFormValues, on_submit_edit, edit_settled, on_submit_include, include_settled,
  on_remove_suite, remove_settled, on_submit_criteria, criteria_settled, on_delete_criteria,
  criteria_deleted, on_submit_cycle, environment_settled, cycle_settled, on_submit_cycle_edit,
  cycle_edit_settled, on_delete_cycle, cycle_deleted,
}

pub data Event : Type 0 where
  open_edit close_edit open_include close_include close_criteria open_cycle close_cycle : Event
  close_cycle_edit submit_include : Event
  pick_suite remove_suite delete_criteria delete_cycle : String → Event
  open_criteria : Option EntryExitCriteriaSummary → Event
  open_cycle_edit : TestCycleSummary → Event
  submit_edit : List FieldConfig → Values → Event
  submit_criteria : String → Values → Event
  submit_cycle_edit : Values → Event
  submit_cycle : NewTestCycleFormValues → Event
  -- the ends of the requests that write
  plan_updated suite_included suite_removed criteria_saved criterion_deleted cycle_created :
      Reply (Unit {0}) → Event
  cycle_updated test_cycle_deleted : Reply (Unit {0}) → Event
  environment_created : NewTestCycleFormValues → Reply String → Event
  -- the answers to the requests that load a part
  plan_answered : Reply TestPlanSummary → Event
  suites_answered project_suites_answered : Reply (List TestSuiteSummary) → Event
  coverage_answered : Reply (List TestCaseSummary) → Event
  criteria_answered : Reply (List EntryExitCriteriaSummary) → Event
  cycles_answered : Reply (List TestCycleSummary) → Event
  releases_answered : Reply (List ReleaseSummary) → Event
  environments_answered : Reply (List EnvironmentRow) → Event

unfoldable pub step : Event → Page → Page
unfolding on_submit_edit edit_settled on_submit_include include_settled on_remove_suite
    remove_settled on_submit_criteria criteria_settled on_delete_criteria criteria_deleted
    on_submit_cycle environment_settled cycle_settled on_submit_cycle_edit cycle_edit_settled
    on_delete_cycle cycle_deleted receive_plan receive_suites receive_coverage receive_criteria
    receive_cycles receive_project_suites receive_release_labels receive_environment_labels
step open_edit p = record p {
  edit_api_error = none;
  edit_field_errors = none;
  show_edit_modal = true;
}
step close_edit p = record p { show_edit_modal = false }
step open_include p = record p { selected_suite_id = ""; show_include_modal = true }
step close_include p = record p { show_include_modal = false }
step (pick_suite id) p = record p { selected_suite_id = id }
step (open_criteria row) p = record p { criteria_field_errors = none; criteria_modal = some row }
step close_criteria p = record p { criteria_modal = none }
step open_cycle p = record p { show_cycle_modal = true }
step close_cycle p = record p { show_cycle_modal = false }
step (open_cycle_edit row) p = record p { cycle_field_errors = none; cycle_modal = some row }
step close_cycle_edit p = record p { cycle_modal = none }
step (submit_edit fields values) p = on_submit_edit fields values p
step submit_include p = on_submit_include p
step (remove_suite id) p = on_remove_suite id p
step (submit_criteria test_plan_id values) p = on_submit_criteria test_plan_id values p
step (delete_criteria id) p = on_delete_criteria id p
step (submit_cycle values) p = on_submit_cycle values p
step (submit_cycle_edit values) p = on_submit_cycle_edit values p
step (delete_cycle id) p = on_delete_cycle id p
step (plan_updated reply) p = edit_settled reply p
step (suite_included reply) p = include_settled reply p
step (suite_removed reply) p = remove_settled reply p
step (criteria_saved reply) p = criteria_settled reply p
step (criterion_deleted reply) p = criteria_deleted reply p
step (cycle_created reply) p = cycle_settled reply p
step (cycle_updated reply) p = cycle_edit_settled reply p
step (test_cycle_deleted reply) p = cycle_deleted reply p
step (environment_created values reply) p = environment_settled values reply p
step (plan_answered reply) p = receive_plan reply p
step (suites_answered reply) p = receive_suites reply p
step (project_suites_answered reply) p = receive_project_suites reply p
step (coverage_answered reply) p = receive_coverage reply p
step (criteria_answered reply) p = receive_criteria reply p
step (cycles_answered reply) p = receive_cycles reply p
step (releases_answered reply) p = receive_release_labels reply p
step (environments_answered reply) p = receive_environment_labels reply p

-- After a history, the latest event first.
unfoldable pub after : List Event → Page
unfolding step
after [] = start
after (e ∷ es) = step e (after es)
