-- ===== src/Navigation/OrgContext.antt =====
-- hooks/useResolvedOrgId.ts: the organisation and the project of a route. The query of react-query is
-- what it holds for the project of the route.
use testnexa.Base.{String, Bool, not, ◌&&◌, Option, none, some, present, if◌then◌else◌}

-- lib/api/projects.ts
pub record ProjectSummary : Type 0 where
  pub id : String
  pub org_id : String
  pub name : String
  pub standards_profile : Option String

-- `"org" | "project"`
pub data Mode : Type 0 where
  org project : Mode

pub data Status : Type 0 where
  pending error success : Status

pub record ProjectQuery : Type 0 where
  -- `data`
  pub row : Option ProjectSummary
  pub status : Status

pub record ResolvedOrgContext : Type 0 where
  pub mode : Mode
  pub org_id : Option String
  pub project_id : Option String
  pub project : Option ProjectSummary
  pub status : Status

-- `data?.org_id`
abbrev org_id_of : Option ProjectSummary → Option String
org_id_of none = none
org_id_of (some p) = some p.org_id

unfoldable pub use_resolved_org_id :
    Option String → Option String → ProjectQuery → ResolvedOrgContext
use_resolved_org_id org_id project_id query =
    let should_fetch : Bool = present project_id && not (present org_id) in
    let mode : Mode = if present project_id then project else org in
    if not should_fetch
    then record {
      mode = mode;
      org_id = org_id;
      project_id = project_id;
      project = none;
      status = success;
    }
    else record {
      mode = mode;
      org_id = org_id_of query.row;
      project_id = project_id;
      project = query.row;
      status = query.status;
    }
