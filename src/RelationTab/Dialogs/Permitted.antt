-- ===== src/RelationTab/Dialogs/Permitted.antt =====
-- What the dialogs send: only what their gates cover, and only for the record of the tab.
use testnexa.Base.{◌≡◌, String, Bool, true, ◌&&◌, Option, List, [], ◌∷◌, arith}
use testnexa.Session.Permissions.{MyPermissionsResponse}
use testnexa.RelationTab.CreateLink.{Tab}
use testnexa.RelationTab.Dialogs.{
  Dialogs, closed, open_create_modal, open_link_modal, close_link_modal, ask_unlink,
  close_unlink_modal, submit_create, submit_link, confirm_unlink,
}
use testnexa.RelationTab.Dialogs.Covered.{
  AreCovered, gated, create_settled-AreCovered, link_settled-AreCovered, unlink_settled-AreCovered,
  submit_create-AreCovered, submit_link-AreCovered, confirm_unlink-AreCovered,
}
use testnexa.RelationTab.Dialogs.Events.{
  Event, open_create, close_create, open_link, close_link, link, close_unlink, confirm, submit, ask,
  resolve_scope, pick, settle_create, settle_link, settle_unlink, can_create_row, can_link,
  can_remove, step, after,
}

first : (a b : Bool) → (a && b) ≡ true → a ≡ true
first a b h = ground (arith, h)

module _ (permissions : Option MyPermissionsResponse) (project_id : Option String) (tab : Tab) where
  step-AreCovered :
      (e : Event) (s : Dialogs)
      → AreCovered permissions project_id tab s
      → AreCovered permissions project_id tab (step permissions project_id tab e s)
  unfolding step can_create_row can_link can_remove open_create_modal open_link_modal
      close_link_modal ask_unlink close_unlink_modal
  step-AreCovered open_create s c =
      gated permissions project_id tab _ (open_create_modal s) s c (λ h. c)
  step-AreCovered close_create s c = c
  step-AreCovered (submit values) s c =
      gated permissions project_id tab _ (submit_create tab values s) s c
        (λ h. submit_create-AreCovered permissions project_id tab values s (first _ _ h) c)
  step-AreCovered (settle_create reply) s c =
      create_settled-AreCovered permissions project_id tab reply s c
  step-AreCovered open_link s c =
      gated permissions project_id tab _ (open_link_modal s) s c (λ h. c)
  step-AreCovered close_link s c = c
  step-AreCovered (resolve_scope name value) s c = gated permissions project_id tab _ _ s c (λ h. c)
  step-AreCovered (pick id) s c = gated permissions project_id tab _ _ s c (λ h. c)
  step-AreCovered link s c =
      gated permissions project_id tab _ (submit_link tab s) s c
        (λ h. submit_link-AreCovered permissions project_id tab s (first _ _ h) c)
  step-AreCovered (settle_link reply) s c =
      link_settled-AreCovered permissions project_id tab reply s c
  step-AreCovered (ask row) s c = gated permissions project_id tab _ (ask_unlink row s) s c (λ h. c)
  step-AreCovered close_unlink s c = c
  step-AreCovered confirm s c =
      gated permissions project_id tab _ (confirm_unlink tab s) s c
        (λ h. confirm_unlink-AreCovered permissions project_id tab s h c)
  step-AreCovered (settle_unlink reply) s c =
      unlink_settled-AreCovered permissions project_id tab reply s c

  after-AreCovered :
      (es : List Event) (s : Dialogs)
      → AreCovered permissions project_id tab s
      → AreCovered permissions project_id tab (after permissions project_id tab es s)
  unfolding after
  after-AreCovered [] s c = c
  after-AreCovered (e ∷ es) s c =
      after-AreCovered es (step permissions project_id tab e s) (step-AreCovered e s c)

  -- Whatever is done in the dialogs of a tab, and whenever their requests are answered, every request
  -- that they send is covered: its permission is held, its action is the one that the configuration
  -- of the tab declares, and its path is built from that action and the record of the tab.
  pub after-closed-AreCovered :
      (es : List Event)
      → AreCovered permissions project_id tab (after permissions project_id tab es closed)
  after-closed-AreCovered es = after-AreCovered es closed tt
