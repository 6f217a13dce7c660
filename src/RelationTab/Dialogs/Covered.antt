-- ===== src/RelationTab/Dialogs/Covered.antt =====
-- What a request of the dialogs is covered by, and that each handler keeps all of them covered.
use testnexa.Base.{
  ◌≡◌, refl, String, Bool, true, false, not, ◌&&◌, ◌||◌, Option, none, some, List, [], ◌∷◌, ◌++◌,
  ◌<>◌, All, arith, truthy, inl, inr, if◌then◌else◌, Bool-cases,
}
use mathlib.Core.Option.{map}
use testnexa.Json.{Fields}
use testnexa.Entity.{LinkCreateAction, LinkDeleteAction, CompoundCreateAction}
use testnexa.EntityCrud.{create_path, link_path}
use testnexa.Session.Permissions.{MyPermissionsResponse}
use testnexa.RelationTab.{
  active_child_compound_create, child_compound_create, can_create, can_create_child,
  can_create_child_via_compound, can_link_existing, can_unlink, may, may_action, may_link,
  may_unlink, is_one_to_many,
}
use testnexa.RelationTab.CreateLink.{Tab, other, Reply, ok, failed, field_errors_of, error_message}
use testnexa.RelationTab.Dialogs.{
  Call, create_call, compound_call, link_call, unlink_call, Dialogs, scope_values, pair_values,
  close_link_modal, close_unlink_modal, create_failed, create_settled, link_settled, unlink_settled,
  child_call, link_call_of, far_id_of, unlink_call_of, submitted, submit_create, linked,
  link_picked, submit_link, unlinked, unlink_row, confirm_unlink,
}

module _ (permissions : Option MyPermissionsResponse) (project_id : Option String) (tab : Tab) where
  -- The permission of the request, and what its path is built from.
  abbrev pub IsCovered : Call → Type 0
  IsCovered (create_call config path values) =
      (may permissions project_id (config.resource <> ".create") ≡ true)
      × (config ≡ tab.config)
      × (path ≡ create_path tab.config tab.params)
  IsCovered (compound_call action path values) =
      (may permissions project_id action.permission ≡ true)
      × (active_child_compound_create tab.relation tab.config ≡ some action)
      × (link_path action.path_template (scope_values tab) ≡ some path)
  IsCovered (link_call action path) =
      (may permissions project_id action.permission ≡ true)
      × (tab.config.link_create ≡ some action)
      × ((far_id : String) × (link_path action.path_template (pair_values tab far_id) ≡ some path))
  IsCovered (unlink_call action path) =
      (may permissions project_id action.permission ≡ true)
      × (tab.config.link_delete ≡ some action)
      × ((far_id : String) × (link_path action.path_template (pair_values tab far_id) ≡ some path))

  Fits : Option Call → Type 0
  Fits none = Unit
  Fits (some call) = IsCovered call

  Fits-map :
      (f : String → Call) (o : Option String)
      → ((path : String) → o ≡ some path → IsCovered (f path))
      → Fits (map f o)
  unfolding Fits
  Fits-map f none h = tt
  Fits-map f (some path) h = h path refl

  All-snoc :
      (calls : List Call) (call : Call)
      → All IsCovered calls
      → IsCovered call
      → All IsCovered (calls ++ call ∷ [])
  All-snoc [] call h fits = (fits, tt)
  All-snoc (c ∷ calls) call h fits = (h.0, All-snoc calls call h.1 fits)

  create_failed-calls :
      (o : Option (List (String × Option String))) (message : String) (s : Dialogs)
      → (create_failed o message s).calls ≡ s.calls
  unfolding create_failed
  create_failed-calls none message s = refl
  create_failed-calls (some errors) message s = refl

  create_settled-calls : (reply : Reply) (s : Dialogs) → (create_settled reply s).calls ≡ s.calls
  unfolding create_settled
  create_settled-calls (ok created) s = refl
  create_settled-calls (failed failure) s =
      create_failed-calls (field_errors_of failure) (error_message failure) s

  -- What the gate of the creation says of the compound action that is active.
  IsOffered : Option CompoundCreateAction → Type 0
  IsOffered none = may permissions project_id (tab.config.resource <> ".create") ≡ true
  IsOffered (some action) = may permissions project_id action.permission ≡ true

  offered :
      (one created : Bool) (raw : Option CompoundCreateAction)
      → ((one && created && may permissions project_id (tab.config.resource <> ".create"))
          || (one && may_action permissions project_id (if created then none else raw)))
        ≡ true
      → IsOffered (if created then none else raw)
  unfolding IsOffered may_action
  offered one true raw h = ground (arith, h)
  offered one false none h = ground (arith, h)
  offered one false (some action) h = ground (arith, h)

  child_call-Fits :
      (action : Option CompoundCreateAction) (values : Fields)
      → active_child_compound_create tab.relation tab.config ≡ action
      → IsOffered action
      → Fits (child_call tab action values)
  unfolding child_call IsOffered Fits
  child_call-Fits none values active h = (h, refl, refl)
  child_call-Fits (some action) values active h =
      Fits-map (λ path. compound_call action path values)
        (link_path action.path_template (scope_values tab)) (λ path e. (h, active, e))

  link_call_of-Fits :
      (action : Option LinkCreateAction) (far_id : String)
      → tab.config.link_create ≡ action
      → may_link permissions project_id action ≡ true
      → Fits (link_call_of tab action far_id)
  unfolding link_call_of may_link
  link_call_of-Fits none far_id e h = unfold Fits in tt
  link_call_of-Fits (some action) far_id e h =
      Fits-map (link_call action) (link_path action.path_template (pair_values tab far_id))
        (λ path found. (h, e, (far_id, found)))

  unlink_call_of-Fits :
      (action : Option LinkDeleteAction) (far_id : Option String)
      → tab.config.link_delete ≡ action
      → may_unlink permissions project_id action ≡ true
      → Fits (unlink_call_of tab action far_id)
  unfolding unlink_call_of may_unlink
  unlink_call_of-Fits none far_id e h = unfold Fits in tt
  unlink_call_of-Fits (some action) none e h = unfold Fits in tt
  unlink_call_of-Fits (some action) (some far_id) e h =
      Fits-map (unlink_call action) (link_path action.path_template (pair_values tab far_id))
        (λ path found. (h, e, (far_id, found)))

  -- Every request so far is covered.
  abbrev pub AreCovered : Dialogs → Type 0
  AreCovered s = All IsCovered s.calls

  pub gated :
      (gate : Bool) (acted s : Dialogs)
      → AreCovered s
      → (gate ≡ true → AreCovered acted)
      → AreCovered (if gate then acted else s)
  gated true acted s c h = h refl
  gated false acted s c h = c

  pub create_settled-AreCovered :
      (reply : Reply) (s : Dialogs) → AreCovered s → AreCovered (create_settled reply s)
  create_settled-AreCovered reply s c = rw (create_settled-calls reply s) c

  pub link_settled-AreCovered :
      (reply : Reply) (s : Dialogs) → AreCovered s → AreCovered (link_settled reply s)
  unfolding link_settled close_link_modal
  link_settled-AreCovered (ok answer) s c = c
  link_settled-AreCovered (failed failure) s c = c

  pub unlink_settled-AreCovered :
      (reply : Reply) (s : Dialogs) → AreCovered s → AreCovered (unlink_settled reply s)
  unfolding unlink_settled close_unlink_modal
  unlink_settled-AreCovered (ok answer) s c = c
  unlink_settled-AreCovered (failed failure) s c = c

  submitted-AreCovered :
      (o : Option Call) (s : Dialogs) → Fits o → AreCovered s → AreCovered (submitted tab o s)
  unfolding submitted Fits
  submitted-AreCovered none s fits c = create_settled-AreCovered (failed other) s c
  submitted-AreCovered (some call) s fits c = All-snoc s.calls call c fits

  linked-AreCovered :
      (o : Option Call) (s : Dialogs) → Fits o → AreCovered s → AreCovered (linked tab o s)
  unfolding linked Fits
  linked-AreCovered none s fits c = link_settled-AreCovered (failed other) s c
  linked-AreCovered (some call) s fits c = All-snoc s.calls call c fits

  unlinked-AreCovered :
      (o : Option Call) (s : Dialogs) → Fits o → AreCovered s → AreCovered (unlinked tab o s)
  unfolding unlinked Fits
  unlinked-AreCovered none s fits c = unlink_settled-AreCovered (failed other) s c
  unlinked-AreCovered (some call) s fits c = All-snoc s.calls call c fits

  pub submit_create-AreCovered :
      (values : Fields) (s : Dialogs)
      → (can_create_child permissions project_id tab.relation tab.config
          || can_create_child_via_compound permissions project_id tab.relation tab.config)
        ≡ true
      → AreCovered s
      → AreCovered (submit_create tab values s)
  unfolding submit_create can_create_child can_create_child_via_compound
      active_child_compound_create
  submit_create-AreCovered values s h c =
      submitted-AreCovered _ s
        (child_call-Fits (active_child_compound_create tab.relation tab.config) values refl (
          offered (is_one_to_many tab.relation.kind) (can_create tab.config)
            (child_compound_create tab.relation tab.config) h))
        c

  link_picked-AreCovered :
      (o : Option String) (s : Dialogs)
      → may_link permissions project_id tab.config.link_create ≡ true
      → AreCovered s
      → AreCovered (link_picked tab o s)
  unfolding link_picked
  link_picked-AreCovered none s h c = c
  link_picked-AreCovered (some far_id) s h c =
      let fits = link_call_of-Fits tab.config.link_create far_id refl h in
      gated (truthy far_id && not s.linking)
        (linked tab (link_call_of tab tab.config.link_create far_id) s) s c
        (λ pressed. linked-AreCovered (link_call_of tab tab.config.link_create far_id) s fits c)

  pub submit_link-AreCovered :
      (s : Dialogs)
      → can_link_existing permissions project_id tab.relation tab.config ≡ true
      → AreCovered s
      → AreCovered (submit_link tab s)
  unfolding submit_link can_link_existing
  submit_link-AreCovered s h c = link_picked-AreCovered s.picked_id s (ground (arith, h)) c

  unlink_row-AreCovered :
      (o : Option Fields) (s : Dialogs)
      → may_unlink permissions project_id tab.config.link_delete ≡ true
      → AreCovered s
      → AreCovered (unlink_row tab o s)
  unfolding unlink_row
  unlink_row-AreCovered none s h c = c
  unlink_row-AreCovered (some row) s h c =
      let call = unlink_call_of tab tab.config.link_delete (far_id_of tab row) in
      let fits = unlink_call_of-Fits tab.config.link_delete (far_id_of tab row) refl h in
      elim (Bool-cases s.unlinking) [
        | inl busy ↦ simp busy c
        | inr free ↦ simp free (unlinked-AreCovered call s fits c)
      ]

  pub confirm_unlink-AreCovered :
      (s : Dialogs)
      → can_unlink permissions project_id tab.relation tab.config ≡ true
      → AreCovered s
      → AreCovered (confirm_unlink tab s)
  unfolding confirm_unlink can_unlink
  confirm_unlink-AreCovered s h c =
      unlink_row-AreCovered s.row_pending_unlink s (ground (arith, h)) c
