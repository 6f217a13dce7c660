-- ===== src/Tests/EntityCrud.antt =====
-- The paths of concrete requests.
use testnexa.Base.{String, ◌≡◌, refl, ◌==◌, Option, none, some, if◌then◌else◌}
use testnexa.EntityCrud.{interpolate, interpolate_link_path}

abbrev only_case : String → Option String
only_case name = if name == "test_case_id" then some "c1" else none

paths :
    (interpolate "/projects/:projectId/releases" (λ name. some "p1") ≡ "/projects/p1/releases")
    × (interpolate_link_path "/test-cases/{test_case_id}/links" only_case
        ≡ some "/test-cases/c1/links")
unfolding interpolate interpolate_link_path
paths = (refl, refl)

half_filled :
    interpolate_link_path "/test-cases/{test_case_id}/defects/{defect_id}" only_case ≡ none
unfolding interpolate_link_path
half_filled = refl
