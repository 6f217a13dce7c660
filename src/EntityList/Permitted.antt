-- ===== src/EntityList/Permitted.antt =====
-- The button of the page covers the request that its dialog sends.
use mathlib.Core.Option.{map}
use mathlib.Core.Path.{subst}
use testnexa.Base.{
  ◌≡◌, refl, String, Bool, true, false, ◌&&◌, Option, none, some, List, arith, if◌then◌else◌,
}
use testnexa.Json.{Fields}
use testnexa.Entity.{CompoundCreateAction}
use testnexa.EntityCrud.{link_path, create_path}
use testnexa.RelationTab.CreateLink.{Request, create_row, create_compound}
use testnexa.RelationTab.CreateLink.Permitted.{permission_of, IsPermitted}
use testnexa.EntityList.{
  Context, action_for, raw_child_compound_create, can_create, child_compound_create, may_action,
  can_create_via_compound, has_new_button, request_for, create_request,
}

and_right : (a b : Bool) → (a && b) ≡ true → b ≡ true
and_right a b h = ground (arith, h)

compound-permission :
    (action : CompoundCreateAction) (values : Fields) (o : Option String) (r : Request)
    → map (λ path. create_compound action path values) o ≡ some r
    → permission_of r ≡ action.permission
unfolding permission_of
compound-permission action values none r h = cc
compound-permission action values (some path) r h =
    let same : create_compound action path values ≡ r = cc in
    subst (λ r'. permission_of r' ≡ action.permission) same refl

action_for-none :
    (scope : Option (String × String)) (actions : Option (List CompoundCreateAction))
    → scope ≡ none
    → action_for scope actions ≡ none
unfolding action_for
action_for-none none actions h = refl
action_for-none (some scope) actions h = cc

module _ (c : Context) (picked : Option String) (values : Fields) (request : Request) where
  compound-IsPermitted :
      (o : Option CompoundCreateAction) (scope : Option (String × String))
      → (scope ≡ none → o ≡ none)
      → may_action c o ≡ true
      → request_for c o scope picked values ≡ some request
      → IsPermitted c.permissions c.project_id request
  unfolding may_action request_for
  compound-IsPermitted none scope k h e = cc
  compound-IsPermitted (some action) none k h e = let impossible = k refl in cc
  compound-IsPermitted (some action) (some scope) k h e =
      let same = compound-permission action values (link_path action.path_template _) request e in
      rw same h

  generic-IsPermitted :
      can_create c ≡ true
      → request_for c none c.scope picked values ≡ some request
      → IsPermitted c.permissions c.project_id request
  unfolding request_for can_create permission_of
  generic-IsPermitted h e =
      let same : create_row c.config (create_path c.config c.route_params) values ≡ request = cc in
      subst (IsPermitted c.permissions c.project_id) same (and_right _ _ h)

  gate-IsPermitted :
      (b : Bool)
      → can_create c ≡ b
      → (if b then true else may_action c (if b then none else raw_child_compound_create c)) ≡ true
      → request_for c (if b then none else raw_child_compound_create c) c.scope picked values
        ≡ some request
      → IsPermitted c.permissions c.project_id request
  unfolding raw_child_compound_create
  gate-IsPermitted true g h e = generic-IsPermitted g e
  gate-IsPermitted false g h e =
      compound-IsPermitted (raw_child_compound_create c) c.scope
        (action_for-none c.scope c.config.child_compound_creates) h e

  -- Where the page has its New button, the request that a submit of the dialog sends is to a route
  -- whose permission is held: the generic one where the entity has it and it may be used, and else
  -- the declared one under a parent.
  pub create_request-IsPermitted :
      has_new_button c ≡ true
      → create_request c picked values ≡ some request
      → IsPermitted c.permissions c.project_id request
  unfolding has_new_button create_request can_create_via_compound child_compound_create
  create_request-IsPermitted h e = gate-IsPermitted (can_create c) refl h e
