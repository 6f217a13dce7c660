-- ===== src/RelationTab/CreateLink/Closing.antt =====
-- What the dialog of a compound creation shows after it.
use testnexa.Base.{
  ◌≡◌, refl, sym, ap, ◌∙◌, String, Bool, true, false, not, ◌&&◌, ◌||◌, Option, none, some, List, [],
  ◌∷◌, ◌++◌, any, arith,
}
use testnexa.Json.{Json, Fields}
use testnexa.Entity.{LinkCreateAction, CompoundCreateAction, EntityConfig}
use testnexa.RelationTab.CreateLink.{
  Reply, ok, failed, Tab, Request, create_row, create_compound, link_row, Result, done,
  created_not_linked, rejected, send_to, link_half, create_half, link_created, after_create, linked,
  create_and_link, Dialog, close_create_link_modal, show_failure, settle, field_errors_of,
  error_message,
}
use testnexa.RelationTab.CreateLink.Rows.{id_of}

is_ok : Reply → Bool
is_ok (ok answer) = true
is_ok (failed failure) = false

-- A row has been created by this request.
unfoldable pub has_created : (Request → Reply) → Request → Bool
unfolding is_ok
has_created send (link_row action path) = false
has_created send (create_row config path values) = is_ok (send (create_row config path values))
has_created send (create_compound action path values) =
    is_ok (send (create_compound action path values))

any-append : (p : Request → Bool) (xs ys : List Request) → any p (xs ++ ys) ≡ (any p xs || any p ys)
any-append p [] ys = refl
any-append p (x ∷ xs) ys = ground (arith, any-append p xs ys)

or_left : (a b : Bool) → a ≡ true → (a || b) ≡ true
or_left a b h = ground (arith, h)

or_false : (b : Bool) → (b || false) ≡ b
or_false true = refl
or_false false = refl

-- The mutation does not end as rejected.
is_settled : Result → Bool
is_settled (rejected failure) = false
is_settled _ = true

show_failure_shown :
    (o : _) (message : String) (s : Dialog)
    → (show_failure o message s).show_create_link_modal ≡ s.show_create_link_modal
unfolding show_failure
show_failure_shown none message s = refl
show_failure_shown (some errors) message s = refl

and_true : (b : Bool) → b ≡ (b && true)
and_true true = refl
and_true false = refl

and_false : (b : Bool) → false ≡ (b && false)
and_false true = refl
and_false false = refl

settle_shown :
    (r : Result) (s : Dialog)
    → (settle r s).show_create_link_modal ≡ (s.show_create_link_modal && not (is_settled r))
unfolding settle close_create_link_modal is_settled
settle_shown done s = and_false s.show_create_link_modal
settle_shown (created_not_linked message) s = and_false s.show_create_link_modal
settle_shown (rejected failure) s =
    show_failure_shown (field_errors_of failure) (error_message failure) s
    ∙ and_true s.show_create_link_modal

module _ (tab : Tab) (send : Request → Reply) where
  sent_link :
      (action : LinkCreateAction) (path : Option String)
      → any (has_created send) (send_to send path (link_row action)).0 ≡ false
  unfolding send_to has_created
  sent_link action none = refl
  sent_link action (some path) = refl

  link_half_none :
      (o : Option LinkCreateAction) (far_id : String)
      → any (has_created send) (link_half tab send o far_id).0 ≡ false
  unfolding link_half
  link_half_none none far_id = refl
  link_half_none (some action) far_id = sent_link action _

  link_created_none :
      (created : Option Json) (id : Option String)
      → any (has_created send) (link_created tab send created id).0 ≡ false
  unfolding link_created
  link_created_none created none = refl
  link_created_none created (some far_id) = link_half_none tab.config.link_create far_id

  linked_settled :
      (created : Option Json) (far_id : String) (reply : Reply)
      → is_settled (linked tab send created far_id reply) ≡ true
  unfolding linked is_settled
  linked_settled created far_id (ok answer) = refl
  linked_settled created far_id (failed failure) = refl

  link_created_settled :
      (created : Option Json) (id : Option String)
      → is_settled (link_created tab send created id).1 ≡ true
  unfolding link_created is_settled
  link_created_settled created none = refl
  link_created_settled created (some far_id) = linked_settled created far_id _

  create_half_ok :
      (action : Option CompoundCreateAction) (far : Option EntityConfig)
      (parent picked : Option String) (values : Fields)
      → any (has_created send) (create_half tab send action far parent picked values).0
        ≡ is_ok (create_half tab send action far parent picked values).1
  unfolding create_half send_to has_created is_ok
  create_half_ok none none parent picked values = refl
  create_half_ok none (some far) parent picked values = or_false _
  create_half_ok (some action) far parent picked values = sent_compound action _ values
    where
      sent_compound :
          (action : CompoundCreateAction) (path : Option String) (values : Fields)
          → any (has_created send) (send_to send path (λ p. create_compound action p values)).0
            ≡ is_ok (send_to send path (λ p. create_compound action p values)).1
      sent_compound action none values = refl
      sent_compound action (some path) values = or_false _

  after_create_settled :
      (automatic : Bool) (log : List Request) (reply : Reply)
      → any (has_created send) log ≡ is_ok reply
      → is_settled (after_create tab send automatic log reply).1
        ≡ any (has_created send) (after_create tab send automatic log reply).0
  unfolding after_create is_settled is_ok
  after_create_settled automatic log (failed failure) h = sym h
  after_create_settled true log (ok created) h = sym h
  after_create_settled false log (ok created) h =
      link_created_settled created (id_of created)
      ∙ sym (any-append (has_created send) log _ ∙ or_left _ _ h)

  -- A submission that a dialog shows leaves it open exactly when no row has been created by it, so a
  -- row that is created but not linked always closes the dialog and is never created again from it.
  pub shown-create_and_link :
      (picked : Option String) (values : Fields) (s : Dialog)
      → (settle (create_and_link tab send picked values).1 s).show_create_link_modal ≡ (
          s.show_create_link_modal
          && not (any (has_created send) (create_and_link tab send picked values).0))
  unfolding create_and_link
  shown-create_and_link picked values s =
      settle_shown (create_and_link tab send picked values).1 s
      ∙ ap (λ b. s.show_create_link_modal && not b)
          (after_create_settled _ _ _ (create_half_ok _ tab.far_config _ picked values))
