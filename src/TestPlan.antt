-- ===== src/TestPlan.antt =====
-- pages/workflows/TestPlanDetail/TestPlanDetail.tsx: the page of a test plan.
-- The plan and the project are those of the route, which are both there.
pub mod Page
pub mod Edit
use testnexa.Base.{String, Bool, Option, List}
use testnexa.Json.{Json}

-- `"draft" | "approved" | "superseded"`, as its text
abbrev pub TestPlanStatus : Type 0
TestPlanStatus = String

pub record TestPlanSummary : Type 0 where
  pub id : String
  pub project_id : String
  pub created_by_actor_id : String
  pub identifier : String
  pub scope : Option String
  pub approach : Option String
  pub staffing_and_training : Option String
  pub schedule : Option String
  pub status : TestPlanStatus

pub record TestSuiteSummary : Type 0 where
  pub id : String
  pub project_id : String
  pub name : String
  pub purpose : Option String

pub record TestCaseSummary : Type 0 where
  pub id : String
  pub test_condition_id : Option String
  pub project_id : Option String
  pub test_level_id : String
  pub test_type_id : String
  pub created_by_actor_id : String
  pub title : String
  pub description : Option String
  pub preconditions : Option String
  pub expected_result : Option String
  pub status : String

pub record EntryExitCriteriaSummary : Type 0 where
  pub id : String
  pub test_plan_id : String
  pub type : String
  pub condition_text : String

pub record TestCycleSummary : Type 0 where
  pub id : String
  pub test_plan_id : String
  pub project_id : String
  pub release_id : String
  pub environment_id : String
  pub name : String
  pub start_date : Option String
  pub end_date : Option String

pub record ReleaseSummary : Type 0 where
  pub id : String
  pub project_id : String
  pub version_label : String
  pub target_date : Option String

-- A row of the environments, of which the page reads the id and the name.
pub record EnvironmentRow : Type 0 where
  pub id : String
  pub name : Option String

pub record CreateTestCyclePayload : Type 0 where
  pub release_id : String
  pub environment_id : String
  pub name : String
  pub start_date : Option String
  pub end_date : Option String

-- A record of unknown values, such as those of a form.
abbrev pub Values : Type 0
Values = List (String × Json)
