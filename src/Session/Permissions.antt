-- ===== src/Session/Permissions.antt =====
-- auth/usePermissions.ts: what the caller may do, from the answer of the permissions query.
use testnexa.Base.{
  String, Bool, true, false, ◌&&◌, ◌||◌, ◌==◌, Option, none, some, List, [], ◌∷◌, any, ◌≡◌, refl,
  arith,
}

pub record MyPermissionCode : Type 0 where
  pub code : String
  -- `null` for a grant in the whole organisation
  pub project_id : Option String

pub record MyPermissionsResponse : Type 0 where
  pub codes : List MyPermissionCode

-- `row.project_id === null || row.project_id === projectId`, where the argument may be undefined
unfoldable pub covers : Option String → Option String → Bool
covers none project = true
covers (some p) none = false
covers (some p) (some project) = p == project

unfoldable pub grants : String → Option String → MyPermissionCode → Bool
unfolding covers
grants code project row = row.code == code && covers row.project_id project

-- `query.data?.codes ?? []`
unfoldable pub codes_of : Option MyPermissionsResponse → List MyPermissionCode
codes_of none = []
codes_of (some response) = response.codes

unfoldable pub has : Option MyPermissionsResponse → String → Option String → Bool
unfolding codes_of grants
has response code project = any (grants code project) (codes_of response)

abbrev is_in : String → Option String → Bool
is_in project none = false
is_in project (some p) = p == project

-- A grant in one project, whatever the organisation grants.
unfoldable pub is_project_grant : String → String → MyPermissionCode → Bool
is_project_grant code project row = row.code == code && is_in project row.project_id

covers-split :
    (b : Bool) (o : Option String) (project : String)
    → (b && covers o (some project)) ≡ (b && covers o none || b && is_in project o)
unfolding covers
covers-split true none project = refl
covers-split false none project = refl
covers-split true (some p) project = refl
covers-split false (some p) project = refl

grants-split :
    (code project : String) (row : MyPermissionCode)
    → grants code (some project) row ≡ (grants code none row || is_project_grant code project row)
unfolding grants is_project_grant
grants-split code project row = covers-split (row.code == code) row.project_id project

any-split :
    (code project : String) (rows : List MyPermissionCode)
    → any (grants code (some project)) rows
      ≡ (any (grants code none) rows || any (is_project_grant code project) rows)
any-split code project [] = refl
any-split code project (row ∷ rows) =
    ground (arith, grants-split code project row, any-split code project rows)

-- In a project the caller has a permission by a grant in the whole organisation, which is what the
-- question without a project asks for, or by a grant in this very project, and in no other way.
has-project :
    (response : Option MyPermissionsResponse) (code project : String)
    → has response code (some project)
      ≡ (has response code none || any (is_project_grant code project) (codes_of response))
unfolding has
has-project response code project = any-split code project (codes_of response)
