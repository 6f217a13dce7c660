-- ===== src/TestPlan/Page/Latest.antt =====
-- What the sections of the page show, and what has been requested for them.
use testnexa.Base.{refl, ap, String, not, Option, none, some, List, [], ◌∷◌, ◌++◌, truthy, if_keeps}
use testnexa.Entity.{FieldConfig}
use testnexa.Workflow.{Reply, ok, failed, error_message, server_field_errors, receive_load}
use testnexa.TestPlan.{TestPlanSummary, EntryExitCriteriaSummary, TestCycleSummary, Values}
use testnexa.TestPlan.Page.{
  Part, plan, suites, coverage, criteria, cycles, environments, FieldErrors, Page, fetch_plan,
  fetch_included_suites, fetch_coverage, fetch_criteria, fetch_cycles, fetch_environment_labels,
  receive_plan, receive_suites, receive_coverage, receive_criteria, receive_cycles,
  receive_project_suites, receive_release_labels, receive_environment_labels,
}
use testnexa.TestPlan.Page.Handlers.{
  NewTestCycleFormValues, on_submit_edit, edit_plan, edit_failed, edit_settled, on_submit_include,
  include_settled, on_remove_suite, remove_settled, on_submit_criteria, submit_criteria_of,
  criteria_failed, criteria_settled, on_delete_criteria, criteria_deleted, on_submit_cycle,
  create_cycle, environment_settled, cycle_settled, on_submit_cycle_edit, edit_cycle,
  cycle_edit_failed, cycle_edit_settled, on_delete_cycle, cycle_deleted,
}
use testnexa.TestPlan.Page.Events.{
  Event, open_edit, close_edit, open_include, close_include, close_criteria, open_cycle,
  close_cycle, close_cycle_edit, submit_include, pick_suite, remove_suite, delete_criteria,
  delete_cycle, open_criteria, open_cycle_edit, submit_edit, submit_criteria, submit_cycle_edit,
  submit_cycle, plan_updated, suite_included, suite_removed, criteria_saved, criterion_deleted,
  cycle_created, cycle_updated, test_cycle_deleted, environment_created, plan_answered,
  suites_answered, project_suites_answered, coverage_answered, criteria_answered, cycles_answered,
  releases_answered, environments_answered, step, after,
}
use testnexa.TestPlan.Page.History.{concerned, required, IsOf}

module _ (es : List Event) (parts : List Part) where
  edit_failed-IsOf :
      (errors : FieldErrors) (message : String) (p : Page)
      → IsOf es parts p
      → IsOf es parts (edit_failed errors message p)
  unfolding edit_failed
  edit_failed-IsOf (some errors) message p h = h
  edit_failed-IsOf none message p h = h

  criteria_failed-IsOf :
      (errors : FieldErrors) (message : String) (p : Page)
      → IsOf es parts p
      → IsOf es parts (criteria_failed errors message p)
  unfolding criteria_failed
  criteria_failed-IsOf (some errors) message p h = h
  criteria_failed-IsOf none message p h = h

  cycle_edit_failed-IsOf :
      (errors : FieldErrors) (message : String) (p : Page)
      → IsOf es parts p
      → IsOf es parts (cycle_edit_failed errors message p)
  unfolding cycle_edit_failed
  cycle_edit_failed-IsOf (some errors) message p h = h
  cycle_edit_failed-IsOf none message p h = h

  edit_settled-IsOf :
      (reply : Reply (Unit {0})) (p : Page)
      → IsOf es parts p
      → IsOf es (concerned (plan_updated reply) ++ parts) (edit_settled reply p)
  unfolding edit_settled fetch_plan
  edit_settled-IsOf (ok _) p h = (h.0, h.1, h.2, h.3, h.4, ap (λ l. plan ∷ l) h.5)
  edit_settled-IsOf (failed e) p h = edit_failed-IsOf (server_field_errors e) (error_message e) p h

  include_settled-IsOf :
      (reply : Reply (Unit {0})) (p : Page)
      → IsOf es parts p
      → IsOf es (concerned (suite_included reply) ++ parts) (include_settled reply p)
  unfolding include_settled fetch_included_suites fetch_coverage
  include_settled-IsOf (ok _) p h = (h.0, h.1, h.2, h.3, h.4, ap (λ l. coverage ∷ suites ∷ l) h.5)
  include_settled-IsOf (failed e) p h = h

  criteria_settled-IsOf :
      (reply : Reply (Unit {0})) (p : Page)
      → IsOf es parts p
      → IsOf es (concerned (criteria_saved reply) ++ parts) (criteria_settled reply p)
  unfolding criteria_settled fetch_criteria
  criteria_settled-IsOf (ok _) p h = (h.0, h.1, h.2, h.3, h.4, ap (λ l. criteria ∷ l) h.5)
  criteria_settled-IsOf (failed e) p h =
      criteria_failed-IsOf (server_field_errors e) (error_message e) p h

  cycle_settled-IsOf :
      (reply : Reply (Unit {0})) (p : Page)
      → IsOf es parts p
      → IsOf es (concerned (cycle_created reply) ++ parts) (cycle_settled reply p)
  unfolding cycle_settled fetch_cycles fetch_environment_labels
  cycle_settled-IsOf (ok _) p h = (h.0, h.1, h.2, h.3, h.4, ap (λ l. environments ∷ cycles ∷ l) h.5)
  cycle_settled-IsOf (failed e) p h = (h.0, h.1, h.2, h.3, h.4, ap (λ l. environments ∷ l) h.5)

  cycle_edit_settled-IsOf :
      (reply : Reply (Unit {0})) (p : Page)
      → IsOf es parts p
      → IsOf es (concerned (cycle_updated reply) ++ parts) (cycle_edit_settled reply p)
  unfolding cycle_edit_settled fetch_cycles fetch_environment_labels
  cycle_edit_settled-IsOf (ok _) p h =
      (h.0, h.1, h.2, h.3, h.4, ap (λ l. environments ∷ cycles ∷ l) h.5)
  cycle_edit_settled-IsOf (failed e) p h =
      cycle_edit_failed-IsOf (server_field_errors e) (error_message e) p h

  environment_settled-IsOf :
      (values : NewTestCycleFormValues) (reply : Reply String) (p : Page)
      → IsOf es parts p
      → IsOf es
          (concerned (environment_created values reply) ++ parts)
          (environment_settled values reply p)
  unfolding environment_settled create_cycle cycle_settled fetch_environment_labels
  environment_settled-IsOf values (ok id) p h = h
  environment_settled-IsOf values (failed e) p h =
      (h.0, h.1, h.2, h.3, h.4, ap (λ l. environments ∷ l) h.5)

  edit_plan-IsOf :
      (o : Option TestPlanSummary) (fields : List FieldConfig) (values : Values) (p : Page)
      → IsOf es parts p
      → IsOf es parts (edit_plan o fields values p)
  unfolding edit_plan
  edit_plan-IsOf none fields values p h = h
  edit_plan-IsOf (some it) fields values p h = h

  submit_criteria-IsOf :
      (o : Option (Option EntryExitCriteriaSummary)) (test_plan_id : String) (values : Values)
      (p : Page)
      → IsOf es parts p
      → IsOf es parts (submit_criteria_of o test_plan_id values p)
  unfolding submit_criteria_of
  submit_criteria-IsOf none test_plan_id values p h = h
  submit_criteria-IsOf (some row) test_plan_id values p h = h

  edit_cycle-IsOf :
      (o : Option TestCycleSummary) (values : Values) (p : Page)
      → IsOf es parts p
      → IsOf es parts (edit_cycle o values p)
  unfolding edit_cycle
  edit_cycle-IsOf none values p h = h
  edit_cycle-IsOf (some row) values p h = h

  include-IsOf : (p : Page) → IsOf es parts p → IsOf es parts (on_submit_include p)
  unfolding on_submit_include
  include-IsOf p h =
      if_keeps (IsOf es parts) (not (truthy p.selected_suite_id)) _ _ (λ _. h) (λ _. h)

  submit_cycle-IsOf :
      (values : NewTestCycleFormValues) (p : Page)
      → IsOf es parts p
      → IsOf es parts (on_submit_cycle values p)
  unfolding on_submit_cycle create_cycle
  submit_cycle-IsOf values p h =
      if_keeps (IsOf es parts) values.new_environment _ _ (λ _. h) (λ _. h)

-- After every history of the page, with answers at any time and in any order, each of its sections
-- shows the latest answer for it that has come and not failed. And the requests that load its parts are
-- exactly the first one of each and, for every request that writes and has ended, one for each part
-- that it may have changed: the plan after an update; the suites and the coverage after a suite is
-- included, and after a removal even where that fails; the criteria after they are saved, and after a
-- deletion even where that fails; the cycles after one is created or updated, and after a deletion
-- even where that fails; and the environments whenever the creation of a cycle has ended, and after an
-- update of one.
pub after-IsLoaded : (es : List Event) → IsOf es (required es) (after es)
unfolding after step on_submit_edit on_remove_suite on_submit_criteria on_delete_criteria
    on_submit_cycle_edit on_delete_cycle remove_settled criteria_deleted cycle_deleted
    fetch_included_suites fetch_coverage fetch_criteria fetch_cycles receive_plan receive_suites
    receive_coverage receive_criteria receive_cycles receive_project_suites receive_release_labels
    receive_environment_labels receive_load
after-IsLoaded [] = (refl, refl, refl, refl, refl, refl)
after-IsLoaded (open_edit ∷ es) = after-IsLoaded es
after-IsLoaded (close_edit ∷ es) = after-IsLoaded es
after-IsLoaded (open_include ∷ es) = after-IsLoaded es
after-IsLoaded (close_include ∷ es) = after-IsLoaded es
after-IsLoaded (close_criteria ∷ es) = after-IsLoaded es
after-IsLoaded (open_cycle ∷ es) = after-IsLoaded es
after-IsLoaded (close_cycle ∷ es) = after-IsLoaded es
after-IsLoaded (close_cycle_edit ∷ es) = after-IsLoaded es
after-IsLoaded (pick_suite id ∷ es) = after-IsLoaded es
after-IsLoaded (remove_suite id ∷ es) = after-IsLoaded es
after-IsLoaded (delete_criteria id ∷ es) = after-IsLoaded es
after-IsLoaded (delete_cycle id ∷ es) = after-IsLoaded es
after-IsLoaded (open_criteria row ∷ es) = after-IsLoaded es
after-IsLoaded (open_cycle_edit row ∷ es) = after-IsLoaded es
after-IsLoaded (submit_include ∷ es) = include-IsOf es (required es) (after es) (after-IsLoaded es)
after-IsLoaded (submit_edit fields values ∷ es) =
    edit_plan-IsOf es (required es) (after es).plan.value fields values (after es)
      (after-IsLoaded es)
after-IsLoaded (submit_criteria test_plan_id values ∷ es) =
    submit_criteria-IsOf es (required es) (after es).criteria_modal test_plan_id values (after es)
      (after-IsLoaded es)
after-IsLoaded (submit_cycle_edit values ∷ es) =
    edit_cycle-IsOf es (required es) (after es).cycle_modal values (after es) (after-IsLoaded es)
after-IsLoaded (submit_cycle values ∷ es) =
    submit_cycle-IsOf es (required es) values (after es) (after-IsLoaded es)
after-IsLoaded (plan_updated reply ∷ es) =
    edit_settled-IsOf es (required es) reply (after es) (after-IsLoaded es)
after-IsLoaded (suite_included reply ∷ es) =
    include_settled-IsOf es (required es) reply (after es) (after-IsLoaded es)
after-IsLoaded (criteria_saved reply ∷ es) =
    criteria_settled-IsOf es (required es) reply (after es) (after-IsLoaded es)
after-IsLoaded (cycle_created reply ∷ es) =
    cycle_settled-IsOf es (required es) reply (after es) (after-IsLoaded es)
after-IsLoaded (cycle_updated reply ∷ es) =
    cycle_edit_settled-IsOf es (required es) reply (after es) (after-IsLoaded es)
after-IsLoaded (environment_created values reply ∷ es) =
    environment_settled-IsOf es (required es) values reply (after es) (after-IsLoaded es)
after-IsLoaded (suite_removed reply ∷ es) =
    let h = after-IsLoaded es in (h.0, h.1, h.2, h.3, h.4, ap (λ l. coverage ∷ suites ∷ l) h.5)
after-IsLoaded (criterion_deleted reply ∷ es) =
    let h = after-IsLoaded es in (h.0, h.1, h.2, h.3, h.4, ap (λ l. criteria ∷ l) h.5)
after-IsLoaded (test_cycle_deleted reply ∷ es) =
    let h = after-IsLoaded es in (h.0, h.1, h.2, h.3, h.4, ap (λ l. cycles ∷ l) h.5)
after-IsLoaded (plan_answered (ok items) ∷ es) =
    let h = after-IsLoaded es in (refl, h.1, h.2, h.3, h.4, h.5)
after-IsLoaded (plan_answered (failed e) ∷ es) = after-IsLoaded es
after-IsLoaded (suites_answered (ok items) ∷ es) =
    let h = after-IsLoaded es in (h.0, refl, h.2, h.3, h.4, h.5)
after-IsLoaded (suites_answered (failed e) ∷ es) = after-IsLoaded es
after-IsLoaded (coverage_answered (ok items) ∷ es) =
    let h = after-IsLoaded es in (h.0, h.1, refl, h.3, h.4, h.5)
after-IsLoaded (coverage_answered (failed e) ∷ es) = after-IsLoaded es
after-IsLoaded (criteria_answered (ok items) ∷ es) =
    let h = after-IsLoaded es in (h.0, h.1, h.2, refl, h.4, h.5)
after-IsLoaded (criteria_answered (failed e) ∷ es) = after-IsLoaded es
after-IsLoaded (cycles_answered (ok items) ∷ es) =
    let h = after-IsLoaded es in (h.0, h.1, h.2, h.3, refl, h.5)
after-IsLoaded (cycles_answered (failed e) ∷ es) = after-IsLoaded es
after-IsLoaded (project_suites_answered reply ∷ es) = after-IsLoaded es
after-IsLoaded (releases_answered reply ∷ es) = after-IsLoaded es
after-IsLoaded (environments_answered reply ∷ es) = after-IsLoaded es
