-- ===== src/TestCycle/History.antt =====
-- pages/workflows/TestCycleDetail/TestCycleDetail.tsx: the dialog with the log of an execution. A
-- request of the log is answered at any later time, also after the dialog has gone on.
pub mod Latest
use testnexa.Base.{
  String, Bool, true, false, Option, none, some, List, [], ◌∷◌, truthy, if◌then◌else◌,
}
use testnexa.Workflow.{Failure, Reply, ok, failed, error_message, Load, begin_load, receive_load}
use testnexa.TestCycle.{TestLogSummary}

pub record HistoryModal : Type 0 where
  pub show_history_modal : Bool
  pub history_execution_id : Option String
  pub logs : Load (List TestLogSummary)
  pub comment_error : Option String

abbrev pub start : HistoryModal
start = record {
  show_history_modal = false;
  history_execution_id = none;
  logs = record { value = []; loading = false; load_error = none };
  comment_error = none;
}

-- `fetchLogs`, up to its request.
unfoldable pub fetch_logs : HistoryModal → HistoryModal
fetch_logs m = record m { logs = begin_load m.logs }

-- The rest of `fetchLogs`. It does not look at which execution the answer is about.
unfoldable pub receive_logs : Reply (List TestLogSummary) → HistoryModal → HistoryModal
unfolding receive_load
receive_logs reply m = record m { logs = receive_load reply m.logs }

unfoldable pub open_history_modal : String → HistoryModal → HistoryModal
unfolding fetch_logs
open_history_modal id m =
    fetch_logs
      (record m { history_execution_id = some id; comment_error = none; show_history_modal = true })

unfoldable pub close_history_modal : HistoryModal → HistoryModal
close_history_modal m = record m {
  show_history_modal = false;
  history_execution_id = none;
  logs = record m.logs { value = [] };
}

-- `onSubmitComment`, up to its request: nothing where no execution is open.
unfoldable pub submit_comment_of : Option String → HistoryModal → HistoryModal
submit_comment_of none m = m
submit_comment_of (some id) m = record m { comment_error = none }

-- The end of the request of a comment, with the request of the log that follows it.
unfoldable pub comment_settled : Reply (Unit {0}) → HistoryModal → HistoryModal
unfolding fetch_logs
comment_settled (ok _) m = fetch_logs m
comment_settled (failed e) m = record m { comment_error = some (error_message e) }

pub data Event : Type 0 where
  opened : String → Event
  closed submit_comment : Event
  commented : Reply (Unit {0}) → Event
  -- The answer to a request for the log of an execution.
  answered : String → Reply (List TestLogSummary) → Event

unfoldable pub step : Event → HistoryModal → HistoryModal
unfolding open_history_modal close_history_modal comment_settled receive_logs submit_comment_of
step (opened id) m = open_history_modal id m
step closed m = close_history_modal m
step submit_comment m = submit_comment_of m.history_execution_id m
step (commented reply) m = comment_settled reply m
step (answered id reply) m = receive_logs reply m

-- After a history, the latest event first.
unfoldable pub after : List Event → HistoryModal
unfolding step
after [] = start
after (e ∷ es) = step e (after es)
