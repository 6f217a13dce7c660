-- ===== src/Navigation/Breadcrumb/Trail.antt =====
-- What a rendered trail begins and ends with.
use testnexa.Base.{
  ℕ, suc, String, ◌≡◌, refl, sym, ap, ◌∙◌, ◌⊎◌, inl, inr, Option, none, some, List, [], ◌∷◌, ◌++◌,
  map, All, All-find?, is_empty, length, is_some, if◌then◌else◌,
}
use mathlib.Core.Option.{some-injective}
use mathlib.Core.Path.{subst}
use testnexa.Navigation.Breadcrumb.{
  BreadcrumbSegment, BreadcrumbNavContext, Params, RouteBreadcrumbConfig, filled, prefix_of,
  segments_of, project_trail_prefix, project_trail, route_breadcrumbs, Item, item, render_from,
  render, segments_at, app_breadcrumb,
}

-- The labels of a trail whose root is reached: the dashboard of an organisation, or the project, by
-- its name, below the projects of its organisation.
abbrev pub IsRooted : Option String → Option String → List String → Type 0
IsRooted o n labels =
    ((rest : List String) × (labels ≡ "Dashboard" ∷ rest))
    ⊎ ((org : String) × (name : String) × (rest : List String) × (o ≡ some org)
        × (n ≡ some name)
        × (labels ≡ "Projects" ∷ name ∷ rest))

labels_of : List BreadcrumbSegment → List String
labels_of = map (λ s. s.label)

IsTrail : Option String → Option String → List BreadcrumbSegment → Type 0
IsTrail o n segments = (segments ≡ []) ⊎ IsRooted o n (labels_of segments)

prefix-IsTrail : (o n href : Option String) → IsTrail o n (prefix_of o n href)
unfolding prefix_of IsTrail labels_of
prefix-IsTrail none n href = inl refl
prefix-IsTrail (some org) none href = inl refl
prefix-IsTrail (some org) (some name) href = inr (inr (org, name, [], refl, refl, refl))

longer-IsTrail :
    (o n href : Option String) (tail : List BreadcrumbSegment)
    → IsTrail o n (if is_empty (prefix_of o n href) then [] else prefix_of o n href ++ tail)
unfolding prefix_of IsTrail labels_of
longer-IsTrail none n href tail = inl refl
longer-IsTrail (some org) none href tail = inl refl
longer-IsTrail (some org) (some name) href tail =
    inr (inr (org, name, labels_of tail, refl, refl, refl))

dashboard :
    (o n to : Option String) (segments : List BreadcrumbSegment)
    → IsTrail o n (record { label = "Dashboard"; to = to } ∷ segments)
unfolding IsTrail labels_of
dashboard o n to segments = inr (inl (labels_of segments, refl))

IsRoute : RouteBreadcrumbConfig → Type 0
IsRoute r =
    (params : Params) (context : BreadcrumbNavContext)
    → IsTrail (filled context.org_id) (filled context.project_name) (r.segments params context)

routes-IsRoute : All IsRoute route_breadcrumbs
unfolding route_breadcrumbs IsRoute project_trail project_trail_prefix
routes-IsRoute = (
  (λ params context. dashboard (filled context.org_id) (filled context.project_name) _ _),
  (
    (λ params context. dashboard (filled context.org_id) (filled context.project_name) _ _),
    (
      (λ params context. dashboard (filled context.org_id) (filled context.project_name) _ _),
      (
        (λ params context. dashboard (filled context.org_id) (filled context.project_name) _ _),
        (
          (λ params context. dashboard (filled context.org_id) (filled context.project_name) _ _),
          (
            (λ params context. dashboard (filled context.org_id) (filled context.project_name) _ _),
            (
              (λ params context.
                  dashboard (filled context.org_id) (filled context.project_name) _ _),
              (
                (λ params context.
                    dashboard (filled context.org_id) (filled context.project_name) _ _),
                (
                  (λ params context.
                      dashboard (filled context.org_id) (filled context.project_name) _ _),
                  (
                    (λ params context.
                        dashboard (filled context.org_id) (filled context.project_name) _ _),
                    (
                      (λ params context.
                          longer-IsTrail (filled context.org_id) (filled context.project_name) _ _),
                      (
                        (λ params context.
                            longer-IsTrail (filled context.org_id) (filled context.project_name) _
                              _),
                        (
                          (λ params context.
                              longer-IsTrail (filled context.org_id) (filled context.project_name) _
                                _),
                          (
                            (λ params context.
                                longer-IsTrail (filled context.org_id) (filled context.project_name)
                                  _ _),
                            (
                              (λ params context.
                                  longer-IsTrail (filled context.org_id)
                                    (filled context.project_name) _ _),
                              (
                                (λ params context.
                                    prefix-IsTrail (filled context.org_id)
                                      (filled context.project_name) none),
                                tt,
                              ),
                            ),
                          ),
                        ),
                      ),
                    ),
                  ),
                ),
              ),
            ),
          ),
        ),
      ),
    ),
  ),
)

segments_of-IsTrail :
    (config : RouteBreadcrumbConfig) (context : BreadcrumbNavContext) (params : Option Params)
    → IsRoute config
    → IsTrail
        (filled context.org_id)
        (filled context.project_name)
        (segments_of config context params)
unfolding segments_of IsRoute IsTrail
segments_of-IsTrail config context none h = inl refl
segments_of-IsTrail config context (some params) h = h params context

-- The route that was found, if any.
segments_at-IsTrail :
    (match_path : String → String → Option Params) (location : String)
    (context : BreadcrumbNavContext) (r : Option RouteBreadcrumbConfig)
    → ((config : RouteBreadcrumbConfig) → r ≡ some config → IsRoute config)
    → IsTrail
        (filled context.org_id)
        (filled context.project_name)
        (segments_at match_path location context r)
unfolding segments_at
segments_at-IsTrail match_path location context none h = unfold IsTrail in inl refl
segments_at-IsTrail match_path location context (some config) h =
    segments_of-IsTrail config context (match_path config.pattern location) (h config refl)

abbrev pub item_labels : List Item → List String
item_labels = map (λ i. i.label)

labels-render_from :
    (index total : ℕ) (segments : List BreadcrumbSegment)
    → item_labels (render_from index total segments) ≡ labels_of segments
unfolding render_from item labels_of
labels-render_from index total [] = refl
labels-render_from index total (s ∷ segments) =
    ap (λ labels. s.label ∷ labels) (labels-render_from (suc index) total segments)

rendered-IsRooted :
    (o n : Option String) (segments : List BreadcrumbSegment) (items : List Item)
    → IsTrail o n segments
    → (if is_empty segments then none else some (render segments)) ≡ some items
    → IsRooted o n (item_labels items)
unfolding IsTrail render
rendered-IsRooted o n [] items h e = cc
rendered-IsRooted o n (s ∷ segments) items (inl h) e = cc
rendered-IsRooted o n (s ∷ segments) items (inr h) e =
    let same : labels_of (s ∷ segments) ≡ item_labels items =
      sym (labels-render_from 0 (length (s ∷ segments)) (s ∷ segments))
      ∙ ap item_labels (some-injective _ _ e) in
    subst (IsRooted o n) same h

-- Whatever the router matches, a breadcrumb that shows begins at the dashboard of an organisation,
-- or with the projects of the organisation and the project by its name, and then both are known and
-- not empty. A project's route whose project is not loaded shows no breadcrumb.
pub app_breadcrumb-IsRooted :
    (match_path : String → String → Option Params) (location : String)
    (context : BreadcrumbNavContext) (items : List Item)
    → app_breadcrumb match_path location context ≡ some items
    → IsRooted (filled context.org_id) (filled context.project_name) (item_labels items)
unfolding app_breadcrumb
app_breadcrumb-IsRooted match_path location context items e =
    rendered-IsRooted (filled context.org_id) (filled context.project_name) _ items
      (segments_at-IsTrail match_path location context _ (λ config found.
        All-find? IsRoute (λ r. is_some (match_path r.pattern location)) route_breadcrumbs config
          routes-IsRoute found))
      e
