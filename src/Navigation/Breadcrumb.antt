-- ===== src/Navigation/Breadcrumb.antt =====
-- components/organisms/app-breadcrumb/app-breadcrumb.tsx: the trail of a route. `matchPath` of the
-- router is a parameter: the parameters of a match, by name.
pub mod Trail
use testnexa.Base.{
  ℕ, zero, suc, ◌-◌, String, Bool, true, false, not, ◌&&◌, ◌||◌, Option, none, some, List, [], ◌∷◌,
  ◌++◌, ◌<>◌, is_some, is_empty, get_or, find?, length, num_eq, truthy, if◌then◌else◌,
}
use testnexa.Admin.Registry.{entity_label_by_key}

pub record BreadcrumbSegment : Type 0 where
  pub label : String
  pub to : Option String

pub record BreadcrumbNavContext : Type 0 where
  pub org_id : Option String
  pub project_name : Option String

abbrev pub Params : Type 0
Params = String → Option String

pub record RouteBreadcrumbConfig : Type 0 where
  pub pattern : String
  pub segments : Params → BreadcrumbNavContext → List BreadcrumbSegment

abbrev linked : String → String → BreadcrumbSegment
linked label to = record { label = label; to = some to }

abbrev plain : String → BreadcrumbSegment
plain label = record { label = label; to = none }

-- `${params.name}`
abbrev param : Params → String → String
param params name = get_or (params name) "undefined"

-- A text, where it is there and not empty.
abbrev pub filled : Option String → Option String
filled none = none
filled (some s) = if truthy s then some s else none

label_or_admin : Option String → String
label_or_admin o = get_or (filled o) "Admin"

unfoldable pub entity_label : Option String → String
unfolding label_or_admin entity_label_by_key
entity_label none = "Admin"
entity_label (some entity) =
    if truthy entity then label_or_admin (entity_label_by_key entity) else "Admin"

-- `projectTrailPrefix`, of the two texts that it tests.
prefix_of : Option String → Option String → Option String → List BreadcrumbSegment
prefix_of (some org) (some name) href =
    linked "Projects" ("/orgs/" <> org <> "/projects") ∷ record { label = name; to = href } ∷ []
prefix_of _ _ href = []

unfoldable pub project_trail_prefix : BreadcrumbNavContext → Option String → List BreadcrumbSegment
unfolding prefix_of
project_trail_prefix context href =
    prefix_of (filled context.org_id) (filled context.project_name) href

unfoldable pub project_trail :
    BreadcrumbNavContext → Option String → List BreadcrumbSegment → List BreadcrumbSegment
unfolding project_trail_prefix
project_trail context href tail =
    let prefix : List BreadcrumbSegment = project_trail_prefix context href in
    if is_empty prefix then [] else prefix ++ tail

abbrev route :
    String → (Params → BreadcrumbNavContext → List BreadcrumbSegment) → RouteBreadcrumbConfig
route pattern segments = record { pattern = pattern; segments = segments }

-- `ROUTE_BREADCRUMBS`
unfoldable pub route_breadcrumbs : List RouteBreadcrumbConfig
unfolding entity_label project_trail_prefix project_trail
route_breadcrumbs =
    route "/orgs/:orgId/members" (λ params context.
      linked "Dashboard" ("/orgs/" <> param params "orgId") ∷ plain "Members" ∷ [])
    ∷ route "/orgs/:orgId/ui-elements/colors" (λ params context.
      linked "Dashboard" ("/orgs/" <> param params "orgId")
      ∷ plain "UI Elements"
      ∷ plain "Colors"
      ∷ [])
    ∷ route "/orgs/:orgId/ui-elements/typography" (λ params context.
      linked "Dashboard" ("/orgs/" <> param params "orgId")
      ∷ plain "UI Elements"
      ∷ plain "Typography"
      ∷ [])
    ∷ route "/orgs/:orgId/ui-elements/icons" (λ params context.
      linked "Dashboard" ("/orgs/" <> param params "orgId")
      ∷ plain "UI Elements"
      ∷ plain "Icons"
      ∷ [])
    ∷ route "/orgs/:orgId/projects/:id/edit" (λ params context.
      linked "Dashboard" ("/orgs/" <> param params "orgId")
      ∷ linked "Projects" ("/orgs/" <> param params "orgId" <> "/projects")
      ∷ plain "Edit"
      ∷ [])
    ∷ route "/orgs/:orgId/projects" (λ params context.
      linked "Dashboard" ("/orgs/" <> param params "orgId") ∷ plain "Projects" ∷ [])
    ∷ route "/orgs/:orgId" (λ params context. plain "Dashboard" ∷ [])
    ∷ route "/orgs/:orgId/admin/:entity/:id/edit" (λ params context.
      linked "Dashboard" ("/orgs/" <> param params "orgId")
      ∷ linked (entity_label (params "entity"))
          ("/orgs/" <> param params "orgId" <> "/admin/" <> param params "entity")
      ∷ plain "Edit"
      ∷ [])
    ∷ route "/orgs/:orgId/admin/:entity/:id" (λ params context.
      linked "Dashboard" ("/orgs/" <> param params "orgId")
      ∷ linked (entity_label (params "entity"))
          ("/orgs/" <> param params "orgId" <> "/admin/" <> param params "entity")
      ∷ plain "Details"
      ∷ [])
    ∷ route "/orgs/:orgId/admin/:entity" (λ params context.
      linked "Dashboard" ("/orgs/" <> param params "orgId")
      ∷ plain (entity_label (params "entity"))
      ∷ [])
    ∷ route "/projects/:projectId/test-plans/:testPlanId/test-cycles/:testCycleId"
        (λ params context. project_trail context (some ("/projects/" <> param params "projectId")) (
          linked "Test Plan" (
            "/projects/" <> param params "projectId" <> "/test-plans/" <> param params "testPlanId")
          ∷ plain "Test Cycle"
          ∷ []))
    ∷ route "/projects/:projectId/test-plans/:testPlanId" (λ params context.
      project_trail context (some ("/projects/" <> param params "projectId"))
        (plain "Test Plan" ∷ []))
    ∷ route "/projects/:projectId/admin/:entity/:id/edit" (λ params context.
      project_trail context (some ("/projects/" <> param params "projectId")) (
        linked (entity_label (params "entity"))
          ("/projects/" <> param params "projectId" <> "/admin/" <> param params "entity")
        ∷ plain "Edit"
        ∷ []))
    ∷ route "/projects/:projectId/admin/:entity/:id" (λ params context.
      project_trail context (some ("/projects/" <> param params "projectId")) (
        linked (entity_label (params "entity"))
          ("/projects/" <> param params "projectId" <> "/admin/" <> param params "entity")
        ∷ plain "Details"
        ∷ []))
    ∷ route "/projects/:projectId/admin/:entity" (λ params context.
      project_trail context (some ("/projects/" <> param params "projectId"))
        (plain (entity_label (params "entity")) ∷ []))
    ∷ route "/projects/:projectId" (λ params context. project_trail_prefix context none)
    ∷ []

-- A rendered list item, with its link if it has one.
pub record Item : Type 0 where
  pub label : String
  pub link : Option String
  pub is_active : Bool

unfoldable pub item : Bool → BreadcrumbSegment → Item
item is_active segment = record {
  label = segment.label;
  link = if is_active then none else filled segment.to;
  is_active = is_active;
}

-- `segments.map((segment, index) => …)`, from an index on, of a total
render_from : ℕ → ℕ → List BreadcrumbSegment → List Item
unfolding item
render_from index total [] = []
render_from index total (s ∷ segments) =
    item (num_eq index (total - 1)) s ∷ render_from (suc index) total segments

unfoldable pub render : List BreadcrumbSegment → List Item
unfolding render_from
render segments = render_from 0 (length segments) segments

-- `match ? config.segments(match.params, …) : []`
segments_of : RouteBreadcrumbConfig → BreadcrumbNavContext → Option Params → List BreadcrumbSegment
segments_of config context none = []
segments_of config context (some params) = config.segments params context

module _ (match_path : String → String → Option Params) where
  segments_at :
      String → BreadcrumbNavContext → Option RouteBreadcrumbConfig → List BreadcrumbSegment
  unfolding segments_of
  segments_at location context none = []
  segments_at location context (some config) =
      segments_of config context (match_path config.pattern location)

  -- `none` renders nothing.
  unfoldable pub app_breadcrumb : String → BreadcrumbNavContext → Option (List Item)
  unfolding route_breadcrumbs segments_at render
  app_breadcrumb location context =
      let segments : List BreadcrumbSegment =
        segments_at location context
          (find? (λ r. is_some (match_path r.pattern location)) route_breadcrumbs) in
      if is_empty segments then none else some (render segments)
