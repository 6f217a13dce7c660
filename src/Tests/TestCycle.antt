-- ===== src/Tests/TestCycle.antt =====
-- The page of a test cycle over a service that keeps the results.
use testnexa.Base.{
  ◌≡◌, refl, ◌⊎◌, inl, inr, ℕ, String, ◌==◌, Bool, true, false, length, is_empty, if◌then◌else◌,
  none, some, List, [], ◌∷◌,
}
use testnexa.Json.{end}
use testnexa.Workflow.{Reply, ok, failed, other}
use testnexa.TestCycle.{
  ExecutionResult, pass, fail, blocked, skipped, TestExecutionSummary, TestLogSummary, comment,
}
use testnexa.TestCycle.Dashboard.{CreateExecutionPayload, Service, start, on_submit_record}
use testnexa.TestCycle.Dashboard.Shown.{IsRecordOutcome, on_submit_record-outcome}
use testnexa.TestCycle.History.{Event, opened, closed, answered, after}
use testnexa.TestCycle.History.Latest.{
  IsShowing, open_execution, latest_answer, logs_of, after-IsShowing,
}

abbrev implies : Bool → Bool → Bool
implies true q = q
implies false q = true

-- The second day is later than all else.
abbrev by_day : String → String → Bool
by_day a b = implies (a == "2026-02-02") (b == "2026-02-02")

implies-total : (p q : Bool) → (implies p q ≡ true) ⊎ (implies q p ≡ true)
implies-total true true = inl refl
implies-total true false = inr refl
implies-total false q = inl refl

implies_trans : (p q r : Bool) → implies p q ≡ true → implies q r ≡ true → implies p r ≡ true
implies_trans true true r h k = k
implies_trans true false r h k = cc
implies_trans false q r h k = refl

abbrev execution_at : String → ExecutionResult → TestExecutionSummary
execution_at day result = record {
  id = day;
  test_cycle_id = "c";
  test_case_id = "t";
  executed_by_actor_id = "me";
  result = result;
  actual_result = none;
  executed_at = day;
}

abbrev two_days : List TestExecutionSummary
two_days = execution_at "2026-02-01" pass ∷ execution_at "2026-02-02" fail ∷ []

abbrev day_total : (a b : String) → (by_day a b ≡ true) ⊎ (by_day b a ≡ true)
day_total a b = implies-total (a == "2026-02-02") (b == "2026-02-02")

abbrev day_trans : (a b c : String) → by_day a b ≡ true → by_day b c ≡ true → by_day a c ≡ true
day_trans a b c = implies_trans (a == "2026-02-02") (b == "2026-02-02") (c == "2026-02-02")

-- The results so far; no case but one may be recorded, and blocked ones cannot be counted.
abbrev count_results : ExecutionResult → List TestExecutionSummary → Reply ℕ
count_results pass xs = ok (length xs)
count_results fail xs = ok 0
count_results blocked xs = if is_empty xs then ok 0 else failed other
count_results skipped xs = ok 0

abbrev results_only : Service
results_only = record {
  State = List TestExecutionSummary;
  total_of = count_results;
  executions = λ xs. ok xs;
  create_test_execution = λ payload xs.
      if payload.test_case_id == "t"
      then (ok tt, execution_at payload.executed_at payload.result ∷ xs)
      else (failed other, xs);
  create_defect_for_execution = λ id payload xs. (failed other, xs);
}

abbrev first_pass : CreateExecutionPayload
first_pass = record {
  test_case_id = "t";
  result = pass;
  actual_result = none;
  executed_at = "2026-02-01";
}

on_submit_record-outcome_example :
    let (reply, st') = results_only.create_test_execution first_pass [] in
    let (d', after) = on_submit_record results_only by_day first_pass start [] in
    (after ≡ st') × IsRecordOutcome results_only by_day reply st' start d'
on_submit_record-outcome_example = on_submit_record-outcome results_only by_day first_pass start []

abbrev log_of : String → TestLogSummary
log_of id = record {
  id = "l";
  test_execution_id = id;
  logged_at = "2026-02-01";
  event_type = comment;
  payload = end;
}

-- The dialog of `e` is closed and that of `f` opened, and the answer for `e` comes last.
abbrev late_answer : List Event
late_answer =
    answered "e" (ok (log_of "e" ∷ []))
    ∷ answered "f" (ok [])
    ∷ opened "f"
    ∷ closed
    ∷ opened "e"
    ∷ []

-- The logs of `e` are shown in the dialog of `f`.
late_answer-shown :
    ((after late_answer).history_execution_id ≡ some "f")
    × ((after late_answer).logs.value ≡ log_of "e" ∷ [])
unfolding after
late_answer-shown = (refl, refl)

after-IsShowing_example :
    IsShowing (open_execution late_answer) (logs_of (latest_answer late_answer)) (after late_answer)
after-IsShowing_example = after-IsShowing late_answer
