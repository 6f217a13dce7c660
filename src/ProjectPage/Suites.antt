-- ===== src/ProjectPage/Suites.antt =====
-- pages/workflows/ProjectDetail/ProjectDetail.tsx: the suites of the project, and the members of the suite
-- that is open. A request is answered at any later time, as an event of its own.
pub mod Latest
use testnexa.Base.{
  String, Bool, true, false, ◌==◌, Option, none, some, List, [], ◌∷◌, truthy, if◌then◌else◌,
}
use testnexa.Base.Dict.{insert}
use testnexa.Workflow.{
  FieldMessage, Reply, ok, failed, error_message, Load, initial_load, begin_load, receive_load,
}
use testnexa.ProjectPage.{field_error}
use testnexa.TestPlan.{TestSuiteSummary, TestCaseSummary}

pub record Section : Type 0 where
  pub suites : Load (List TestSuiteSummary)
  pub show_suite_modal : Bool
  pub suite_api_error : Option String
  -- the field of the form that the server has refused, and its message
  pub suite_field_error : Option (String × FieldMessage)
  pub expanded_suite_id : Option String
  pub members : Load (List TestCaseSummary)
  pub add_to_suite_error : List (String × Option String)
  -- the suites that were sent to be created, and those whose members were asked for, the latest first
  pub posted : List (String × Option String)
  pub requested : List String

-- The page is there, and the request of its suites is under way.
abbrev pub start : Section
start = record {
  suites = initial_load [];
  show_suite_modal = false;
  suite_api_error = none;
  suite_field_error = none;
  expanded_suite_id = none;
  members = record { value = []; loading = false; load_error = none };
  add_to_suite_error = [];
  posted = [];
  requested = [];
}

unfoldable pub refused : Option FieldMessage → Option FieldMessage → String → Section → Section
refused (some name_error) purpose_error message s = record s {
  suite_field_error = some ("name", name_error);
}
refused none (some purpose_error) message s = record s {
  suite_field_error = some ("purpose", purpose_error);
}
refused none none message s = record s { suite_api_error = some message }

-- The id is the one that is open.
unfoldable pub is_open : Option String → String → Bool
is_open none id = false
is_open (some expanded) id = expanded == id

-- `dismissAddToSuiteError`
unfoldable pub dismiss_add_to_suite_error : String → Section → Section
dismiss_add_to_suite_error case_id s = record s {
  add_to_suite_error = insert case_id none s.add_to_suite_error;
}

-- `fetchTestSuites` and `fetchSuiteMembers`, up to their requests.
unfoldable pub fetch_test_suites : Section → Section
fetch_test_suites s = record s { suites = begin_load s.suites }

unfoldable pub fetch_suite_members : String → Section → Section
fetch_suite_members id s = record s { members = begin_load s.members; requested = id ∷ s.requested }

-- The rest of the two: `fetchSuiteMembers` stores the members of the suite that it was called for,
-- whatever suite is open by then.
unfoldable pub receive_suites : Reply (List TestSuiteSummary) → Section → Section
unfolding receive_load
receive_suites reply s = record s { suites = receive_load reply s.suites }

unfoldable pub receive_members : Reply (List TestCaseSummary) → Section → Section
unfolding receive_load
receive_members reply s = record s { members = receive_load reply s.members }

-- `onSubmitTestSuite`, up to its request: the purpose is sent where it is not empty.
unfoldable pub on_submit_test_suite : String → String → Section → Section
on_submit_test_suite name purpose s = record s {
  suite_api_error = none;
  posted = (name, (if truthy purpose then some purpose else none)) ∷ s.posted;
}

-- `onSubmitTestSuite` once its request has ended.
unfoldable pub create_settled : Reply (Unit {0}) → Section → Section
unfolding fetch_test_suites refused field_error
create_settled (ok _) s = fetch_test_suites (record s { show_suite_modal = false })
create_settled (failed e) s =
    refused (field_error e "name") (field_error e "purpose") (error_message e) s

unfoldable pub toggle_suite_membership : String → Section → Section
unfolding fetch_suite_members is_open
toggle_suite_membership id s =
    if is_open s.expanded_suite_id id
    then record s { expanded_suite_id = none }
    else fetch_suite_members id
        (record s { expanded_suite_id = some id; members = record s.members { value = [] } })

unfoldable pub with_error : Reply (Unit {0}) → Section → Section
with_error (ok _) s = s
with_error (failed e) s = record s {
  members = record s.members { load_error = some (error_message e) };
}

-- `onRemoveFromSuite` once its request has ended: the members are fetched either way, which resets
-- their error.
unfoldable pub remove_settled : String → Reply (Unit {0}) → Section → Section
unfolding with_error fetch_suite_members
remove_settled id reply s = fetch_suite_members id (with_error reply s)

-- `onAddTestCaseToSuite` once its request has ended, with the suite that was open in the render in
-- which it was called.
unfoldable pub add_settled : Option String → String → String → Reply (Unit {0}) → Section → Section
unfolding fetch_suite_members is_open
add_settled open_then id case_id (ok _) s =
    if is_open open_then id then fetch_suite_members id s else s
add_settled open_then id case_id (failed e) s = record s {
  add_to_suite_error = insert case_id (some (error_message e)) s.add_to_suite_error;
}

-- What can happen: the clicks, and the ends of the requests. An answer has the suite that its
-- request was about.
pub data Event : Type 0 where
  open_modal close_modal : Event
  submit_suite : String → String → Event
  created : Reply (Unit {0}) → Event
  suites_answered : Reply (List TestSuiteSummary) → Event
  toggle_members : String → Event
  members_answered : String → Reply (List TestCaseSummary) → Event
  remove_member : String → String → Event
  removed : String → String → Reply (Unit {0}) → Event
  add_member : String → String → Event
  added : Option String → String → String → Reply (Unit {0}) → Event
  dismiss_error : String → Event

unfoldable pub step : Event → Section → Section
unfolding on_submit_test_suite create_settled receive_suites toggle_suite_membership receive_members
    remove_settled add_settled dismiss_add_to_suite_error
step open_modal s = record s {
  suite_api_error = none;
  suite_field_error = none;
  show_suite_modal = true;
}
step close_modal s = record s { show_suite_modal = false }
step (submit_suite name purpose) s = on_submit_test_suite name purpose s
step (created reply) s = create_settled reply s
step (suites_answered reply) s = receive_suites reply s
step (toggle_members id) s = toggle_suite_membership id s
step (members_answered id reply) s = receive_members reply s
step (remove_member id case_id) s = record s { members = record s.members { load_error = none } }
step (removed id case_id reply) s = remove_settled id reply s
step (add_member id case_id) s = record s {
  add_to_suite_error = insert case_id none s.add_to_suite_error;
}
step (added open_then id case_id reply) s = add_settled open_then id case_id reply s
step (dismiss_error case_id) s = dismiss_add_to_suite_error case_id s

-- After a history, the latest event first.
unfoldable pub after : List Event → Section
unfolding step
after [] = start
after (e ∷ es) = step e (after es)
