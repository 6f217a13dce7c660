-- ===== src/RelationTab/CreateLink/Permitted.antt =====
-- The gate of a compound creation covers every request that the creation sends.
use testnexa.Base.{
  ◌≡◌, refl, String, Bool, true, false, not, ◌&&◌, ◌||◌, Option, none, some, List, [], ◌∷◌, ◌++◌,
  ◌<>◌, All, present, is_some, arith, if◌then◌else◌,
}
use testnexa.Json.{Json, Fields}
use testnexa.Entity.{LinkCreateAction, CompoundCreateAction, EntityConfig}
use testnexa.EntityCrud.{create_path, link_path}
use testnexa.Session.Permissions.{MyPermissionsResponse}
use testnexa.RelationTab.{
  active_compound_create, compound_create, can_create, can_create_far, may, may_link,
  can_link_existing, is_one_to_many,
}
use testnexa.RelationTab.CreateLink.{
  Tab, create_values, Reply, ok, failed, Request, create_row, create_compound, link_row, send_to,
  link_half, create_half, link_created, after_create, create_and_link,
}
use testnexa.RelationTab.CreateLink.Gate.{
  links_automatically, generic, compound, unavailable, mode_of, is_available,
  create_link_permission, needs_link_call, create_link_mode, can_create_and_link, resource_of,
}
use testnexa.RelationTab.CreateLink.Rows.{id_of}

-- The code that the route of a request asks for.
unfoldable pub permission_of : Request → String
permission_of (create_row config path values) = config.resource <> ".create"
permission_of (create_compound action path values) = action.permission
permission_of (link_row action path) = action.permission

All-append : {A : Type 0} (P : A → Type 0) (xs ys : List A) → All P xs → All P ys → All P (xs ++ ys)
All-append P [] ys p q = q
All-append P (x ∷ xs) ys p q = (p.0, All-append P xs ys p.1 q)

and_left : (a b : Bool) → (a && b) ≡ true → a ≡ true
and_left a b h = ground (arith, h)

and_right : (a b : Bool) → (a && b) ≡ true → b ≡ true
and_right a b h = ground (arith, h)

gate_tail : (a b c d e : Bool) → (a && b && c && d && e) ≡ true → (c && d && e) ≡ true
gate_tail a b c d e h = ground (arith, h)

module _ (permissions : Option MyPermissionsResponse) (project_id : Option String) where
  abbrev pub IsPermitted : Request → Type 0
  IsPermitted request = may permissions project_id (permission_of request) ≡ true

  sent-IsPermitted :
      (send : Request → Reply) (path : Option String) (request : String → Request)
      → ((p : String) → IsPermitted (request p))
      → All IsPermitted (send_to send path request).0
  unfolding send_to
  sent-IsPermitted send none request h = tt
  sent-IsPermitted send (some path) request h = (h path, tt)

  generic_gate :
      (b link : Bool) (far : EntityConfig)
      → let mode = if b then generic else unavailable in
        (is_available mode
            && may permissions project_id (create_link_permission mode none (some far))
            && (not (needs_link_call mode none) || link))
          ≡ true
        → (may permissions project_id (far.resource <> ".create") ≡ true) × (link ≡ true)
  unfolding is_available create_link_permission needs_link_call resource_of
  generic_gate true link far h = (and_left _ link h, and_right _ link h)
  generic_gate false link far h = cc

  compound_gate :
      (b c link : Bool) (action : CompoundCreateAction) (far : EntityConfig)
      → b ≡ false
      → let mode = if b then generic else if c then compound else unavailable in
        (is_available mode
            && may permissions project_id (create_link_permission mode (some action) (some far))
            && (not (needs_link_call mode (some action)) || link))
          ≡ true
        → (may permissions project_id action.permission ≡ true)
          × (action.links_automatically ≡ false → link ≡ true)
  unfolding is_available create_link_permission needs_link_call links_automatically
  compound_gate true c link action far e h = cc
  compound_gate false true link action far e h =
      (and_left _ _ h, link_needed action.links_automatically (and_right _ _ h))
    where
      link_needed : (a : Bool) → (not (not a) || link) ≡ true → a ≡ false → link ≡ true
      link_needed a p q = ground (arith, p, q)
  compound_gate false false link action far e h = cc

  module _ (tab : Tab) (send : Request → Reply) where
    link_half-IsPermitted :
        (o : Option LinkCreateAction) (far_id : String)
        → may_link permissions project_id o ≡ true
        → All IsPermitted (link_half tab send o far_id).0
    unfolding link_half may_link permission_of
    link_half-IsPermitted none far_id h = tt
    link_half-IsPermitted (some action) far_id h =
        sent-IsPermitted send _ (link_row action) (λ p. h)

    link_created-IsPermitted :
        (created : Option Json) (id : Option String)
        → can_link_existing permissions project_id tab.relation tab.config ≡ true
        → All IsPermitted (link_created tab send created id).0
    unfolding link_created can_link_existing
    link_created-IsPermitted created none h = tt
    link_created-IsPermitted created (some far_id) h =
        link_half-IsPermitted tab.config.link_create far_id (and_right _ _ h)

    after_create-IsPermitted :
        (automatic : Bool) (log : List Request) (reply : Reply)
        → All IsPermitted log
        → (automatic ≡ false
            → can_link_existing permissions project_id tab.relation tab.config ≡ true)
        → All IsPermitted (after_create tab send automatic log reply).0
    unfolding after_create
    after_create-IsPermitted automatic log (failed failure) p q = p
    after_create-IsPermitted true log (ok created) p q = p
    after_create-IsPermitted false log (ok created) p q =
        All-append IsPermitted log _ p (link_created-IsPermitted created (id_of created) (q refl))

    -- The gate after its first two tests, for a far entity and an active action.
    gate-IsPermitted :
        (far : Option EntityConfig) (o : Option CompoundCreateAction)
        (parent picked : Option String) (values : Fields)
        → (can_create_far far ≡ true → o ≡ none)
        → let mode = mode_of far o parent in
          let link = can_link_existing permissions project_id tab.relation tab.config in
          (is_available mode
              && may permissions project_id (create_link_permission mode o far)
              && (not (needs_link_call mode o) || link))
            ≡ true
          → All IsPermitted
              (after_create tab send
                (links_automatically o)
                (create_half tab send o far parent picked values).0
                (create_half tab send o far parent picked values).1).0
    unfolding mode_of can_create_far create_half permission_of links_automatically is_available
    gate-IsPermitted none o parent picked values rule h = cc
    gate-IsPermitted (some far) none parent picked values rule h =
        let both = generic_gate (can_create far) _ far h in
        after_create-IsPermitted false _ _
          (sent-IsPermitted send (some (create_path far tab.params))
            (λ path. create_row far path values) (λ p. both.0))
          (λ e. both.1)
    gate-IsPermitted (some far) (some action) parent picked values rule h =
        let both =
          compound_gate (can_create far) (present parent) _ action far (not_both _ rule) h in
        after_create-IsPermitted action.links_automatically _ _
          (sent-IsPermitted send
            (link_path action.path_template (create_values tab send parent picked))
            (λ path. create_compound action path values) (λ p. both.0))
          both.1
      where
        not_both : (b : Bool) → (b ≡ true → some action ≡ none) → b ≡ false
        not_both true k = let e = k refl in cc
        not_both false k = refl

    active_none :
        (b : Bool) (o : Option CompoundCreateAction) → b ≡ true → (if b then none else o) ≡ none
    active_none true o h = refl
    active_none false o h = cc

    -- Where the action is offered, every request that it sends, the creation by either route and the
    -- link after it, is one that the permissions of the user cover.
    pub create_and_link-IsPermitted :
        (picked : Option String) (values : Fields)
        → can_create_and_link permissions project_id tab.relation tab.config tab.far_config ≡ true
        → All IsPermitted (create_and_link tab send picked values).0
    unfolding can_create_and_link create_and_link create_link_mode active_compound_create
    create_and_link-IsPermitted picked values h =
        let action = active_compound_create tab.relation tab.config tab.far_config in
        let mode = create_link_mode tab.relation tab.config tab.far_config in
        gate-IsPermitted tab.far_config _ _ picked values
          (active_none (can_create_far tab.far_config) (compound_create tab.relation tab.config))
          (gate_tail (not (is_one_to_many tab.relation.kind)) (is_some tab.relation.target_field)
            (is_available mode)
            (may permissions project_id (create_link_permission mode action tab.far_config))
            (not (needs_link_call mode action)
              || can_link_existing permissions project_id tab.relation tab.config)
            h)
