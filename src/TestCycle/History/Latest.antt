-- ===== src/TestCycle/History/Latest.antt =====
-- pages/workflows/TestCycleDetail/TestCycleDetail.tsx: whose log the dialog has.
use testnexa.Base.{◌≡◌, refl, String, Option, none, some, List, [], ◌∷◌}
use testnexa.Workflow.{Reply, ok, failed, receive_load}
use testnexa.TestCycle.{TestLogSummary}
use testnexa.TestCycle.History.{
  HistoryModal, fetch_logs, receive_logs, open_history_modal, close_history_modal, comment_settled,
  submit_comment_of, Event, opened, closed, submit_comment, commented, answered, step, after,
}

-- The execution whose dialog is open, from the history alone.
abbrev pub open_execution : List Event → Option String
open_execution [] = none
open_execution (opened id ∷ es) = some id
open_execution (closed ∷ es) = none
open_execution (submit_comment ∷ es) = open_execution es
open_execution (commented reply ∷ es) = open_execution es
open_execution (answered id reply ∷ es) = open_execution es

-- The latest answer that has not failed since a dialog was closed, with the execution that its
-- request was about.
abbrev pub latest_answer : List Event → Option (String × List TestLogSummary)
latest_answer [] = none
latest_answer (opened id ∷ es) = latest_answer es
latest_answer (closed ∷ es) = none
latest_answer (submit_comment ∷ es) = latest_answer es
latest_answer (commented reply ∷ es) = latest_answer es
latest_answer (answered id (ok logs) ∷ es) = some (id, logs)
latest_answer (answered id (failed e) ∷ es) = latest_answer es

abbrev pub logs_of : Option (String × List TestLogSummary) → List TestLogSummary
logs_of none = []
logs_of (some (id, logs)) = logs

abbrev pub IsShowing : Option String → List TestLogSummary → HistoryModal → Type 0
IsShowing id logs m = (m.history_execution_id ≡ id) × (m.logs.value ≡ logs)

comment-IsShowing :
    (i : Option String) (id : Option String) (logs : List TestLogSummary) (m : HistoryModal)
    → IsShowing id logs m
    → IsShowing id logs (submit_comment_of i m)
unfolding submit_comment_of
comment-IsShowing none id logs m h = h
comment-IsShowing (some i) id logs m h = h

commented-IsShowing :
    (reply : Reply (Unit {0})) (id : Option String) (logs : List TestLogSummary) (m : HistoryModal)
    → IsShowing id logs m
    → IsShowing id logs (comment_settled reply m)
unfolding comment_settled fetch_logs
commented-IsShowing (ok _) id logs m h = h
commented-IsShowing (failed e) id logs m h = h

-- After every history, with answers at any time and in any order, the dialog is that of the execution
-- that was opened last and not closed, and its logs are those of the latest answer that has come, and
-- not failed, since a dialog was closed, whichever execution that answer is about; none where no
-- such answer has come.
pub after-IsShowing :
    (es : List Event) → IsShowing (open_execution es) (logs_of (latest_answer es)) (after es)
unfolding after step open_history_modal fetch_logs close_history_modal receive_logs receive_load
after-IsShowing [] = (refl, refl)
after-IsShowing (opened id ∷ es) = (refl, (after-IsShowing es).1)
after-IsShowing (closed ∷ es) = (refl, refl)
after-IsShowing (submit_comment ∷ es) =
    comment-IsShowing (after es).history_execution_id (open_execution es)
      (logs_of (latest_answer es)) (after es) (after-IsShowing es)
after-IsShowing (commented reply ∷ es) =
    commented-IsShowing reply (open_execution es) (logs_of (latest_answer es)) (after es)
      (after-IsShowing es)
after-IsShowing (answered id (ok logs) ∷ es) = ((after-IsShowing es).0, refl)
after-IsShowing (answered id (failed e) ∷ es) = after-IsShowing es
