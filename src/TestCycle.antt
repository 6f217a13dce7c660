-- ===== src/TestCycle.antt =====
-- pages/workflows/TestCycleDetail/TestCycleDetail.tsx: the page of a test cycle, and its texts.
pub mod Dashboard
pub mod History
use testnexa.Base.{
  String, Bool, true, false, ◌==◌, Option, none, some, List, [], ◌∷◌, ◌<>◌, truthy, get_or,
  if◌then◌else◌,
}
use testnexa.Json.{Json, Fields, obj, property}
use testnexa.Json.Text.{string_of, text_or}

-- `"pass" | "fail" | "blocked" | "skipped"`
pub data ExecutionResult : Type 0 where
  pass fail blocked skipped : ExecutionResult

pub record TestExecutionSummary : Type 0 where
  pub id : String
  pub test_cycle_id : String
  pub test_case_id : String
  pub executed_by_actor_id : String
  pub result : ExecutionResult
  pub actual_result : Option String
  pub executed_at : String

pub data LogEventType : Type 0 where
  status_change comment attachment agent_action : LogEventType

pub record TestLogSummary : Type 0 where
  pub id : String
  pub test_execution_id : String
  pub logged_at : String
  pub event_type : LogEventType
  pub payload : Fields

unfoldable pub result_color : ExecutionResult → String
result_color pass = "success"
result_color fail = "danger"
result_color blocked = "warning"
result_color skipped = "secondary"

unfoldable pub log_event_color : LogEventType → String
log_event_color status_change = "primary"
log_event_color comment = "secondary"
log_event_color attachment = "info"
log_event_color agent_action = "dark"

-- `String(value)` of a property that may be missing
undefined_or : Option Json → String
undefined_or none = "undefined"
undefined_or (some v) = string_of v

-- What the line is made by: the type, or the kind of an agent's action.
line_kind : LogEventType → Fields → String
unfolding undefined_or
line_kind status_change payload = "status_change"
line_kind comment payload = "comment"
line_kind attachment payload = "attachment"
line_kind agent_action payload = undefined_or (property "kind" payload)

attachment_line : String → String → String
attachment_line text name =
    if truthy text then text <> " (" <> name <> ")" else "Attachment: " <> name

-- `stringify` is `JSON.stringify`.
unfoldable pub log_summary_line : (Json → String) → TestLogSummary → String
unfolding line_kind attachment_line
log_summary_line stringify log =
    let payload = log.payload in
    let kind = line_kind log.event_type payload in
    if kind == "status_change"
    then "Result changed: "
      <> text_or (property "from" payload) "(none)"
      <> " → "
      <> text_or (property "to" payload) "(none)"
    else if kind == "comment"
    then text_or (property "text" payload) "(comment)"
    else if kind == "attachment"
    then attachment_line (text_or (property "text" payload) "")
        (text_or (property "file_name" payload) "attachment")
    else stringify (obj payload)

unfoldable pub cycle_name : Option Fields → String
cycle_name none = "Test cycle"
cycle_name (some cycle) = text_or (property "name" cycle) "Test cycle"

unfoldable pub date_range : Option Fields → String
date_range none = "—"
date_range (some cycle) =
    text_or (property "start_date" cycle) "—" <> " – " <> text_or (property "end_date" cycle) "—"

-- The labels of the header, each from its own request, where the cycle has the id: the field of the
-- row, or the id where the row has none or the request fails.
unfoldable pub resolved_label : String → String → Option Fields → String
resolved_label field id none = id
resolved_label field id (some row) = text_or (property field row) id
