-- ===== src/Tests/Projects.antt =====
-- The list of projects over a server with two projects.
use testnexa.Base.{ℕ, ◌≡◌, refl, List, [], ◌∷◌, none, arith}
use testnexa.Navigation.OrgContext.{ProjectSummary}
use testnexa.Projects.{done, list_projects}
use testnexa.Projects.Listing.{
  serve, response_of, IsAnswered, list_projects-done, list_projects-serve,
}

abbrev two_projects : List ProjectSummary
two_projects =
    record { id = "p"; org_id = "o"; name = "Web"; standards_profile = none }
    ∷ record { id = "q"; org_id = "o"; name = "App"; standards_profile = none }
    ∷ []

list_projects-serve_example : list_projects (serve two_projects) 1 ≡ done two_projects
list_projects-serve_example = list_projects-serve two_projects 1 (omega arith) (omega arith)

two_projects-IsAnswered : (page : ℕ) → IsAnswered (serve two_projects) 2 page
two_projects-IsAnswered page = (response_of two_projects page, refl, omega arith)

list_projects-done_example :
    (all : List ProjectSummary) × (list_projects (serve two_projects) 1 ≡ done all)
list_projects-done_example =
    list_projects-done (serve two_projects) 2 two_projects-IsAnswered 1 (omega arith) (omega arith)
