-- ===== src/Navigation/Sidebar.antt =====
-- components/organisms/app-sidebar/app-sidebar.tsx: the sidebar of a route.
pub mod Partition
use testnexa.Base.{
  ℕ, String, Bool, true, false, not, ◌&&◌, Option, none, some, List, [], ◌∷◌, ◌++◌, ◌<>◌, map,
  get_or, present, if◌then◌else◌,
}
use testnexa.Base.Names.{has}
use testnexa.Base.Dedup.{without}
use testnexa.Base.Dict.{insert, lookup}
use testnexa.Admin.Registry.{RegistryEntry, org_scoped_entities, project_scoped_entities}
use testnexa.Navigation.OrgContext.{Mode, org, project, ResolvedOrgContext}

pub record SidebarNavItem : Type 0 where
  pub key : String
  pub label : String
  pub to : String
  pub end : Bool
  pub test_id : String
  pub icon : Option String

pub record NavLink : Type 0 where
  pub to : String
  pub label : String
  pub test_id : String

pub record SidebarNavGroup : Type 0 where
  pub key : String
  pub label : String
  pub test_id : String
  pub icon : Option String
  pub items : List NavLink

pub record OrgEntityGroup : Type 0 where
  pub key : String
  pub label : String
  pub test_id : String
  pub icon : String
  pub entity_keys : List String

abbrev group : String → String → String → String → List String → OrgEntityGroup
group key label test_id icon entity_keys = record {
  key = key;
  label = label;
  test_id = test_id;
  icon = icon;
  entity_keys = entity_keys;
}

unfoldable pub org_entity_groups : List OrgEntityGroup
org_entity_groups =
    group "access-control" "Access Control" "sidebar-nav-group-access-control"
      "fa-solid fa-user-shield"
      ("roles" ∷ "permissions" ∷ "role-assignments" ∷ "org-memberships" ∷ [])
    ∷ group "catalogs" "Catalogs" "sidebar-nav-group-catalogs" "fa-solid fa-layer-group"
        ("test-design-techniques" ∷ "test-levels" ∷ "test-types" ∷ [])
    ∷ group "organization" "Organization" "sidebar-nav-group-organization" "fa-solid fa-building"
        ("organizations" ∷ [])
    ∷ []

unfoldable pub org_excluded_entity_keys : List String
org_excluded_entity_keys = "projects" ∷ []

unfoldable pub project_entity_groups : List OrgEntityGroup
project_entity_groups =
    group "test-design" "Test Design" "sidebar-nav-group-test-design" "fa-solid fa-pen-ruler"
      ("requirements" ∷ "test-cases" ∷ "test-suites" ∷ [])
    ∷ group "test-planning" "Test Planning" "sidebar-nav-group-test-planning"
        "fa-solid fa-calendar-check" ("test-plans" ∷ "releases" ∷ [])
    ∷ group "execution-defects" "Execution & Defects" "sidebar-nav-group-execution-defects"
        "fa-solid fa-bug" ("test-executions" ∷ "test-logs" ∷ "defects" ∷ [])
    ∷ group "setup" "Setup" "sidebar-nav-group-setup" "fa-solid fa-sliders"
        ("environments" ∷ "risk-items" ∷ [])
    ∷ []

unfoldable pub project_excluded_entity_keys : List String
project_excluded_entity_keys =
    "test-steps" ∷ "attachments" ∷ "requirement-test-case-links"
    ∷ "requirement-test-condition-links" ∷ "test-condition-test-case-links"
    ∷ "test-case-defect-links" ∷ "test-suite-test-cases" ∷ "test-plan-test-suites" ∷ "projects" ∷ []

-- The open groups are a set of keys.
unfoldable pub toggle_group : String → List String → List String
toggle_group key prev = if has prev key then without key prev else prev ++ key ∷ []

-- `new Map(entries.map((item) => [item.key, item]))`
entity_map : List (String × RegistryEntry) → List RegistryEntry → List (String × RegistryEntry)
entity_map m [] = m
entity_map m (e ∷ es) = entity_map (insert e.key e m) es

-- The links of a group: `base` is what its paths begin with.
links : String → List (String × RegistryEntry) → List String → List NavLink
links base m [] = []
links base m (key ∷ keys) =
    let rest : List NavLink = links base m keys in
    elim (lookup key m) [
      | none ↦ rest
      | some e ↦
          record {
            to = base <> "/admin/" <> e.key;
            label = e.label;
            test_id = "sidebar-nav-admin-" <> e.key;
          }
          ∷ rest
    ]

nav_group : String → List (String × RegistryEntry) → OrgEntityGroup → SidebarNavGroup
unfolding links
nav_group base m g = record {
  key = g.key;
  label = g.label;
  test_id = g.test_id;
  icon = some g.icon;
  items = links base m g.entity_keys;
}

abbrev nav_item : String → String → String → Bool → String → String → SidebarNavItem
nav_item key label to end test_id icon = record {
  key = key;
  label = label;
  to = to;
  end = end;
  test_id = test_id;
  icon = some icon;
}

-- A text in a template.
abbrev pub text_of : Option String → String
text_of o = get_or o "undefined"

abbrev pub is_org : Mode → Bool
is_org org = true
is_org project = false

-- `mode === "project" && projectId && orgId`
abbrev pub in_project : ResolvedOrgContext → Bool
in_project c = not (is_org c.mode) && present c.project_id && present c.org_id

-- `orgId && mode === "org"`
abbrev pub in_org : ResolvedOrgContext → Bool
in_org c = present c.org_id && is_org c.mode

org_nav_items : String → List SidebarNavItem
org_nav_items id =
    nav_item "org-home" "Dashboard" ("/orgs/" <> id) true "sidebar-nav-org-home"
      "fa-solid fa-gauge-high"
    ∷ nav_item "projects" "Projects" ("/orgs/" <> id <> "/projects") false "sidebar-nav-projects"
        "fa-solid fa-folder"
    ∷ nav_item "org-members" "Members" ("/orgs/" <> id <> "/members") false
        "sidebar-nav-org-members" "fa-solid fa-users"
    ∷ nav_item "mcp-integration" "MCP Integration" ("/orgs/" <> id <> "/mcp") false
        "sidebar-nav-mcp-integration" "fa-solid fa-plug"
    ∷ []

project_nav_items : String → List SidebarNavItem
project_nav_items id =
    nav_item "project-overview" "Overview" ("/projects/" <> id) true "sidebar-nav-project-overview"
      "fa-solid fa-circle-info"
    ∷ nav_item "mcp-integration" "MCP Integration" ("/projects/" <> id <> "/mcp") false
        "sidebar-nav-mcp-integration" "fa-solid fa-plug"
    ∷ []

unfoldable pub nav_items : ResolvedOrgContext → List SidebarNavItem
unfolding org_nav_items project_nav_items
nav_items c =
    if in_org c
    then org_nav_items (text_of c.org_id)
    else if in_project c
    then project_nav_items (text_of c.project_id)
    else []

unfoldable pub org_nav_groups : ResolvedOrgContext → List SidebarNavGroup
unfolding org_entity_groups entity_map org_scoped_entities nav_group
org_nav_groups c =
    if in_org c
    then map (nav_group ("/orgs/" <> text_of c.org_id) (entity_map [] org_scoped_entities))
        org_entity_groups
    else []

unfoldable pub project_nav_groups : ResolvedOrgContext → List SidebarNavGroup
unfolding project_entity_groups entity_map project_scoped_entities nav_group
project_nav_groups c =
    if in_project c
    then map
        (nav_group ("/projects/" <> text_of c.project_id) (entity_map [] project_scoped_entities))
        project_entity_groups
    else []

unfoldable pub nav_groups : ResolvedOrgContext → List SidebarNavGroup
unfolding org_nav_groups project_nav_groups
nav_groups c = if is_org c.mode then org_nav_groups c else project_nav_groups c

unfoldable pub bottom_nav_items : ResolvedOrgContext → List SidebarNavItem
bottom_nav_items c =
    if in_project c
    then nav_item "back-to-projects" "Back to Projects"
        ("/orgs/" <> text_of c.org_id <> "/projects") false "sidebar-nav-back-to-projects"
        "fa-solid fa-arrow-left"
      ∷ []
    else []
