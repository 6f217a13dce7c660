-- ===== src/Admin/Registry.antt =====
-- pages/admin/registry.ts: the entities that the admin surface knows, in the two shapes of its routes.
use testnexa.Base.{String, Bool, ◌==◌, Option, List, [], ◌∷◌, ◌++◌, map, any}
use testnexa.Base.Names.{has}
use testnexa.Base.Dict.{insert, lookup}

pub record RegistryEntry : Type 0 where
  pub key : String
  pub label : String

abbrev pub entry : String → String → RegistryEntry
entry label key = record { key = key; label = label }

unfoldable pub org_scoped_entities : List RegistryEntry
org_scoped_entities =
    entry "Roles" "roles"
    ∷ entry "Role assignments" "role-assignments"
    ∷ entry "Permissions" "permissions"
    ∷ entry "Test design techniques" "test-design-techniques"
    ∷ entry "Test levels" "test-levels"
    ∷ entry "Test types" "test-types"
    ∷ entry "Organizations" "organizations"
    ∷ entry "Org memberships" "org-memberships"
    ∷ entry "Projects" "projects"
    ∷ []

unfoldable pub project_scoped_entities : List RegistryEntry
project_scoped_entities =
    entry "Environments" "environments"
    ∷ entry "Test plans" "test-plans"
    ∷ entry "Requirements" "requirements"
    ∷ entry "Test cases" "test-cases"
    ∷ entry "Test steps" "test-steps"
    ∷ entry "Test suites" "test-suites"
    ∷ entry "Defects" "defects"
    ∷ entry "Test executions" "test-executions"
    ∷ entry "Test logs" "test-logs"
    ∷ entry "Risk items" "risk-items"
    ∷ entry "Attachments" "attachments"
    ∷ entry "Requirement -> test case links" "requirement-test-case-links"
    ∷ entry "Requirement -> test condition links" "requirement-test-condition-links"
    ∷ entry "Test condition -> test case links" "test-condition-test-case-links"
    ∷ entry "Test case -> defect links" "test-case-defect-links"
    ∷ entry "Test suite -> test case links" "test-suite-test-cases"
    ∷ entry "Test plan -> test suite links" "test-plan-test-suites"
    ∷ entry "Projects" "projects"
    ∷ entry "Releases" "releases"
    ∷ []

unfoldable pub all_entities : List RegistryEntry
unfolding org_scoped_entities project_scoped_entities
all_entities = org_scoped_entities ++ project_scoped_entities

-- `Object.fromEntries(entries.map((e) => [e.key, e.label]))`: the last entry of a key wins.
unfoldable pub labels_from : List (String × String) → List RegistryEntry → List (String × String)
labels_from out [] = out
labels_from out (e ∷ es) = labels_from (insert e.key e.label out) es

unfoldable pub entity_label_by_key : String → Option String
unfolding all_entities labels_from
entity_label_by_key key = lookup key (labels_from [] all_entities)

abbrev pub keys_of : List RegistryEntry → List String
keys_of = map (λ e. e.key)

-- `ADMIN_ENTITY_KEYS.has(key)`
unfoldable pub is_admin_entity_key : String → Bool
unfolding all_entities
is_admin_entity_key key = has (keys_of all_entities) key

unfoldable pub is_org_scoped : String → Bool
unfolding org_scoped_entities
is_org_scoped key = any (λ e. e.key == key) org_scoped_entities
