-- ===== src/Navigation/Sidebar/Partition.antt =====
-- The groups of the sidebar against the registry, and what its links are.
use testnexa.Base.{
  String, ◌≡◌, refl, Bool-cases, Bool, true, false, not, ◌&&◌, ◌==◌, List, [], ◌∷◌, ◌++◌, ◌<>◌, map,
  arith, eq_iff, all, present, if◌then◌else◌,
}
use testnexa.Base.Names.{has, Distinct, has-append}
use testnexa.Base.Dedup.{has-without}
use testnexa.Admin.Registry.{RegistryEntry, keys_of, org_scoped_entities, project_scoped_entities}
use testnexa.Navigation.OrgContext.{ResolvedOrgContext}
use testnexa.Navigation.Sidebar.{
  SidebarNavGroup, text_of, is_org, OrgEntityGroup, org_entity_groups, org_excluded_entity_keys,
  project_entity_groups, project_excluded_entity_keys, toggle_group, nav_groups, org_nav_groups,
  project_nav_groups, entity_map, nav_group, links, in_org, in_project,
}

abbrev pub grouped : List OrgEntityGroup → List String
grouped [] = []
grouped (g ∷ gs) = g.entity_keys ++ grouped gs

-- Keys in groups and exclusions, each once, that are those of a registry.
pub record IsPartition (groups : List OrgEntityGroup) (excluded : List String)
    (registry : List RegistryEntry) : Type 0 where
  pub once : Distinct (grouped groups ++ excluded)
  pub same : (key : String) → has (grouped groups ++ excluded) key ≡ has (keys_of registry) key

has-all :
    (ms ns : List String) (key : String)
    → all (has ns) ms ≡ true
    → has ms key ≡ true
    → has ns key ≡ true
has-all [] ns key h k = cc
has-all (m ∷ ms) ns key h k = ground (arith, eq_iff m key, has-all ms ns key)

same_keys :
    (ms ns : List String) (key : String)
    → all (has ns) ms ≡ true
    → all (has ms) ns ≡ true
    → has ms key ≡ has ns key
same_keys ms ns key h k = ground (
  arith,
  has-all ms ns key h,
  has-all ns ms key k,
  Bool-cases (has ms key),
  Bool-cases (has ns key),
)

is_distinct : List String → Bool
is_distinct [] = true
is_distinct (n ∷ ns) = not (has ns n) && is_distinct ns

is_distinct-Distinct : (ns : List String) → is_distinct ns ≡ true → Distinct ns
unfolding is_distinct
is_distinct-Distinct [] h = tt
is_distinct-Distinct (n ∷ ns) h = (ground arith, is_distinct-Distinct ns (ground arith))

partition :
    (groups : List OrgEntityGroup) (excluded : List String) (registry : List RegistryEntry)
    → is_distinct (grouped groups ++ excluded) ≡ true
    → all (has (keys_of registry)) (grouped groups ++ excluded) ≡ true
    → all (has (grouped groups ++ excluded)) (keys_of registry) ≡ true
    → IsPartition groups excluded registry
partition groups excluded registry d h k = record {
  once = is_distinct-Distinct (grouped groups ++ excluded) d;
  same = λ key. same_keys (grouped groups ++ excluded) (keys_of registry) key h k;
}

-- Every entity of an organisation, and every one of a project, stands in exactly one group of the
-- sidebar or is left out by name, and the sidebar groups nothing that the registry does not have.
pub groups-IsPartition :
    IsPartition org_entity_groups org_excluded_entity_keys org_scoped_entities
    × IsPartition project_entity_groups project_excluded_entity_keys project_scoped_entities
unfolding org_entity_groups org_excluded_entity_keys org_scoped_entities project_entity_groups
    project_excluded_entity_keys project_scoped_entities is_distinct
groups-IsPartition = (
  partition org_entity_groups org_excluded_entity_keys org_scoped_entities refl refl refl,
  partition project_entity_groups project_excluded_entity_keys project_scoped_entities refl refl
      refl,
)

-- A toggle opens a group that is closed, closes one that is prev, and leaves the others.
pub has-toggle_group :
    (key other : String) (prev : List String)
    → has (toggle_group key prev) other
      ≡ (if key == other then not (has prev other) else has prev other)
unfolding toggle_group
has-toggle_group key other prev =
    ground (arith, eq_iff key other, has-without key prev other, has-append prev (key ∷ []) other)

-- The paths of the links of all groups.
abbrev pub targets : List SidebarNavGroup → List String
targets [] = []
targets (g ∷ gs) = map (λ l. l.to) g.items ++ targets gs

org_targets :
    (base : String)
    → targets (map (nav_group base (entity_map [] org_scoped_entities)) org_entity_groups)
      ≡ map (λ key. base <> "/admin/" <> key) (grouped org_entity_groups)
unfolding org_entity_groups org_scoped_entities entity_map nav_group links
org_targets base = refl

project_targets :
    (base : String)
    → targets (map (nav_group base (entity_map [] project_scoped_entities)) project_entity_groups)
      ≡ map (λ key. base <> "/admin/" <> key) (grouped project_entity_groups)
unfolding project_entity_groups project_scoped_entities entity_map nav_group links
project_targets base = refl

-- The choice of the groups, on the three conditions.
targets_if :
    (o p q : Bool) (xs ys : List SidebarNavGroup) (ms bs : List String)
    → targets xs ≡ ms
    → targets ys ≡ bs
    → targets (if o then (if p && o then xs else []) else (if not o && q && p then ys else []))
      ≡ (if p && o then ms else if not o && q && p then bs else [])
targets_if true true q xs ys ms bs h k = h
targets_if true false q xs ys ms bs h k = refl
targets_if false true true xs ys ms bs h k = k
targets_if false true false xs ys ms bs h k = refl
targets_if false false true xs ys ms bs h k = refl
targets_if false false false xs ys ms bs h k = refl

-- The groups of the sidebar hold one link for each grouped entity, at the route of the organisation
-- or of the project that the sidebar is for, and no link while the organisation is not known.
targets-nav_groups :
    (c : ResolvedOrgContext)
    → targets (nav_groups c) ≡ (
        if in_org c
        then map
            (λ key. ("/orgs/" <> text_of c.org_id) <> "/admin/" <> key)
            (grouped org_entity_groups)
        else if in_project c
        then map
            (λ key. ("/projects/" <> text_of c.project_id) <> "/admin/" <> key)
            (grouped project_entity_groups)
        else [])
unfolding nav_groups org_nav_groups project_nav_groups
targets-nav_groups c =
    targets_if (is_org c.mode) (present c.org_id) (present c.project_id) _ _ _ _
      (org_targets ("/orgs/" <> text_of c.org_id))
      (project_targets ("/projects/" <> text_of c.project_id))
