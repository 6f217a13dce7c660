-- ===== src/Tests/Navigation.antt =====
-- The breadcrumb and the sidebar of concrete routes.
use testnexa.Base.{
  String, ◌≡◌, refl, true, false, ◌==◌, Option, none, some, List, [], ◌∷◌, if◌then◌else◌,
}
use testnexa.Navigation.OrgContext.{success, ResolvedOrgContext, use_resolved_org_id}
use testnexa.Navigation.Breadcrumb.{BreadcrumbNavContext, Params, Item, app_breadcrumb}
use testnexa.Navigation.Breadcrumb.Trail.{IsRooted, item_labels, app_breadcrumb-IsRooted}

abbrev in_project_p : ResolvedOrgContext
in_project_p = use_resolved_org_id none (some "p") (record {
  row = some (record { id = "p"; org_id = "o"; name = "Web"; standards_profile = none });
  status = success;
})

-- A router that matches the page of one project.
abbrev at_project : String → String → Option Params
at_project pattern location =
    if pattern == "/projects/:projectId/test-plans/:testPlanId"
    then some (λ name. some "p")
    else none

abbrev known_project : BreadcrumbNavContext
known_project = record { org_id = some "o"; project_name = some "Web" }

abbrev shown_trail : List Item
shown_trail =
    record { label = "Projects"; link = some "/orgs/o/projects"; is_active = false }
    ∷ record { label = "Web"; link = some "/projects/p"; is_active = false }
    ∷ record { label = "Test Plan"; link = none; is_active = true }
    ∷ []

known_project-app_breadcrumb :
    app_breadcrumb at_project "/projects/p/test-plans/p" known_project ≡ some shown_trail
unfolding app_breadcrumb
known_project-app_breadcrumb = refl

app_breadcrumb-IsRooted_example : IsRooted (some "o") (some "Web") (item_labels shown_trail)
app_breadcrumb-IsRooted_example =
    app_breadcrumb-IsRooted at_project "/projects/p/test-plans/p" known_project shown_trail
      known_project-app_breadcrumb
