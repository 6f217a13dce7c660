-- ===== src/TestCycle/Dashboard.antt =====
-- pages/workflows/TestCycleDetail/TestCycleDetail.tsx: the counts, the table of executions and the
-- dialogs that write, over the service of the cycle of the route.
pub mod Sorted
pub mod Shown
use testnexa.Base.{
  ℕ, String, Bool, true, false, Option, none, some, List, [], ◌∷◌, truthy, if◌then◌else◌,
}
use testnexa.Workflow.{Reply, ok, failed, error_message, Load, initial_load, settle_load, map_reply}
use testnexa.TestCycle.{ExecutionResult, pass, fail, blocked, skipped, TestExecutionSummary}

pub record CreateExecutionPayload : Type 0 where
  pub test_case_id : String
  pub result : ExecutionResult
  pub actual_result : Option String
  pub executed_at : String

pub record CreateDefectPayload : Type 0 where
  pub external_ref : Option String
  pub severity : String
  pub status : Option String

-- The service, with the total of each count request.
pub record Service : Type 1 where
  pub State : Type 0
  pub total_of : ExecutionResult → State → Reply ℕ
  pub executions : State → Reply (List TestExecutionSummary)
  pub create_test_execution : CreateExecutionPayload → State → Reply (Unit {0}) × State
  pub create_defect_for_execution : String → CreateDefectPayload → State → Reply (Unit {0}) × State

-- `null` is a count that is not known yet.
abbrev pub Counts : Type 0
Counts = ExecutionResult → Option ℕ

pub record Dashboard : Type 0 where
  pub counts : Counts
  pub counts_error : Option String
  pub history : Load (List TestExecutionSummary)
  pub show_record_modal : Bool
  pub record_error : Option String
  pub show_raise_defect_modal : Bool
  pub raise_defect_execution_id : Option String
  pub raise_defect_error : Option String

abbrev pub start : Dashboard
start = record {
  counts = λ result. none;
  counts_error = none;
  history = initial_load [];
  show_record_modal = false;
  record_error = none;
  show_raise_defect_modal = false;
  raise_defect_execution_id = none;
  raise_defect_error = none;
}

-- `TEST_EXECUTION_RESULTS`
abbrev pub test_execution_results : List ExecutionResult
test_execution_results = pass ∷ fail ∷ blocked ∷ skipped ∷ []

abbrev pub same_result : ExecutionResult → ExecutionResult → Bool
same_result pass pass = true
same_result fail fail = true
same_result blocked blocked = true
same_result skipped skipped = true
same_result _ _ = false

-- `Promise.all` over the requests: the first failure, or all the totals.
unfoldable pub totals :
    (ExecutionResult → Reply ℕ) → List ExecutionResult → Reply (List (ExecutionResult × ℕ))
totals total [] = ok []
totals total (result ∷ results) = elim (total result) [
  | failed e ↦ failed e
  | ok n ↦ map_reply (◌∷◌ (result, n)) (totals total results)
]

-- `Object.fromEntries`
unfoldable pub counts_of : List (ExecutionResult × ℕ) → Counts
counts_of [] result = none
counts_of ((r, n) ∷ entries) result =
    if same_result r result then some n else counts_of entries result

unfoldable pub settle_counts : Reply (List (ExecutionResult × ℕ)) → Dashboard → Dashboard
unfolding counts_of
settle_counts (ok entries) d = record d { counts = counts_of entries; counts_error = none }
settle_counts (failed e) d = record d { counts_error = some (error_message e) }

-- `leq` is the order of `localeCompare`; the sort of the language is stable.
unfoldable pub insert_row :
    (String → String → Bool)
    → TestExecutionSummary
    → List TestExecutionSummary
    → List TestExecutionSummary
insert_row leq x [] = x ∷ []
insert_row leq x (y ∷ ys) =
    if leq y.executed_at x.executed_at then x ∷ y ∷ ys else y ∷ insert_row leq x ys

unfoldable pub sort_executions :
    (String → String → Bool) → List TestExecutionSummary → List TestExecutionSummary
unfolding insert_row
sort_executions leq [] = []
sort_executions leq (x ∷ xs) = insert_row leq x (sort_executions leq xs)

-- `value ? value : null`
abbrev pub or_null : String → Option String
or_null s = if truthy s then some s else none

module _ (S : Service) (leq : String → String → Bool) where
  unfoldable pub fetch_counts : S.State → Dashboard → Dashboard
  unfolding settle_counts totals
  fetch_counts st d =
      settle_counts (totals (λ result. S.total_of result st) test_execution_results) d

  unfoldable pub fetch_history : S.State → Dashboard → Dashboard
  unfolding sort_executions
  fetch_history st d = record d {
    history = settle_load (map_reply (sort_executions leq) (S.executions st)) d.history;
  }

  unfoldable pub refresh_after_record : S.State → Dashboard → Dashboard
  unfolding fetch_counts fetch_history
  refresh_after_record st d = fetch_history st (fetch_counts st d)

  unfoldable pub record_settled : Reply (Unit {0}) → S.State → Dashboard → Dashboard
  unfolding refresh_after_record
  record_settled (ok _) st d = refresh_after_record st (record d { show_record_modal = false })
  record_settled (failed e) st d = record d { record_error = some (error_message e) }

  -- The payload has the time of the form as `datetimeLocalToIso` gives it.
  unfoldable pub on_submit_record :
      CreateExecutionPayload → Dashboard → S.State → Dashboard × S.State
  unfolding record_settled
  on_submit_record payload d st =
      let (reply, st') = S.create_test_execution payload st in
      (record_settled reply st' (record d { record_error = none }), st')

  defect_settled : Reply (Unit {0}) → Dashboard → Dashboard
  defect_settled (ok _) d = record d { show_raise_defect_modal = false }
  defect_settled (failed e) d = record d { raise_defect_error = some (error_message e) }

  raise_defect_for : Option String → CreateDefectPayload → Dashboard → S.State → Dashboard × S.State
  unfolding defect_settled
  raise_defect_for none payload d st = (d, st)
  raise_defect_for (some id) payload d st =
      let (reply, st') = S.create_defect_for_execution id payload st in
      (defect_settled reply (record d { raise_defect_error = none }), st')

  unfoldable pub on_submit_raise_defect :
      CreateDefectPayload → Dashboard → S.State → Dashboard × S.State
  unfolding raise_defect_for
  on_submit_raise_defect payload d st = raise_defect_for d.raise_defect_execution_id payload d st

unfoldable pub open_record_modal : Dashboard → Dashboard
open_record_modal d = record d { show_record_modal = true }

unfoldable pub close_record_modal : Dashboard → Dashboard
close_record_modal d = record d { show_record_modal = false }

unfoldable pub open_raise_defect_modal : String → Dashboard → Dashboard
open_raise_defect_modal id d = record d {
  raise_defect_execution_id = some id;
  raise_defect_error = none;
  show_raise_defect_modal = true;
}

unfoldable pub close_raise_defect_modal : Dashboard → Dashboard
close_raise_defect_modal d = record d {
  show_raise_defect_modal = false;
  raise_defect_execution_id = none;
}
