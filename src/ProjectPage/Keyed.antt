-- ===== src/ProjectPage/Keyed.antt =====
-- pages/workflows/ProjectDetail/ProjectDetail.tsx: the lists that open under a row, which are kept by the
-- id of the row: the conditions of a requirement and the test cases of a condition. A request is
-- answered at any later time.
pub mod Latest
use testnexa.Base.{
  String, Bool, true, false, not, ◌&&◌, ◌==◌, Option, none, some, List, [], ◌∷◌, ◌++◌, filter,
  is_some, if◌then◌else◌,
}
use testnexa.Base.Names.{has}
use testnexa.Base.Dict.{insert, lookup}
use testnexa.Workflow.{Reply, ok, failed, error_message}

pub record Keyed (A : Type 0) : Type 0 where
  pub expanded_ids : List String
  pub lists : List (String × A)
  pub loading : List (String × Bool)
  pub errors : List (String × Option String)

pub data Event (A : Type 0) : Type 0 where
  toggled : String → Event A
  -- A row has been created under this id.
  refreshed : String → Event A
  answered : String → Reply A → Event A

flip_id : Bool → String → List String → List String
flip_id true id ids = filter (λ i. not (i == id)) ids
flip_id false id ids = ids ++ id ∷ []

module _ {A : Type 0} where
  abbrev pub start : Keyed A
  start = record { expanded_ids = []; lists = []; loading = []; errors = [] }

  -- `fetchTestConditions` and `fetchConditionTestCases`, up to the request.
  unfoldable pub fetch : String → Keyed A → Keyed A
  fetch id s = record s { loading = insert id true s.loading; errors = insert id none s.errors }

  -- The rest of the two.
  unfoldable pub receive : String → Reply A → Keyed A → Keyed A
  receive id (ok items) s = record s {
    lists = insert id items s.lists;
    loading = insert id false s.loading;
  }
  receive id (failed e) s = record s {
    errors = insert id (some (error_message e)) s.errors;
    loading = insert id false s.loading;
  }

  -- The list is fetched on the first expand alone.
  unfoldable pub fetch_first : Bool → String → Keyed A → Keyed A
  unfolding fetch
  fetch_first is_expanded id s =
      if not is_expanded && not (is_some (lookup id s.lists)) then fetch id s else s

  -- `toggleTestConditions` and `toggleConditionTestCases`
  unfoldable pub toggle : String → Keyed A → Keyed A
  unfolding fetch_first flip_id
  toggle id s =
      let is_expanded = has s.expanded_ids id in
      fetch_first is_expanded id (record s { expanded_ids = flip_id is_expanded id s.expanded_ids })

  unfoldable pub step : Event A → Keyed A → Keyed A
  unfolding toggle fetch receive
  step (toggled id) s = toggle id s
  step (refreshed id) s = fetch id s
  step (answered id reply) s = receive id reply s

  -- After a history, the latest event first.
  unfoldable pub after : List (Event A) → Keyed A
  unfolding step
  after [] = start
  after (e ∷ es) = step e (after es)
