-- ===== src/Filters/Editing.antt =====
-- What holds of the Filter modal's draft after any edits that its controls offer.
use testnexa.Base.{
  suc, ◌≤◌, String, eq_iff, length-append, ◌≡◌, refl, ◌∙◌, ◌↔◌, inl, inr, true, false, none, some,
  List, [], ◌∷◌, arith, length, Option-cases,
}
use testnexa.Base.Names.{has, Distinct, Within, length-le_of_Within}
use testnexa.Base.Dict.{keys}
use testnexa.Entity.{FieldConfig, EntityConfig, names_of}
use testnexa.Filters.{
  FilterCondition, claimed_of, next_unused_field, add_condition, filterable_fields,
}
use testnexa.Filters.Draft.{
  IsDraft, find?-none, add_condition-IsDraft, remove_condition-IsDraft,
  update_condition-IsDraft_value, update_condition-IsDraft_field, conditions_from_filters-IsDraft,
}
use testnexa.Filters.Modal.{
  FilterModal, open_modal, can_add, set_value, pick_field, remove_row, add_row, clear_all, Edit,
  add, remove, value, pick, clear, Reach, here, next,
}

abbrev pub IsWellFormed : FilterModal → Type 0
IsWellFormed m = IsDraft m.fields m.draft

pub Edit-IsWellFormed : {m n : FilterModal} → Edit m n → IsWellFormed m → IsWellFormed n
unfolding add_row remove_row set_value pick_field clear_all
Edit-IsWellFormed (add ready) d = add_condition-IsDraft d
Edit-IsWellFormed (remove index) d = remove_condition-IsDraft index d
Edit-IsWellFormed (value index v) d = update_condition-IsDraft_value index v d
Edit-IsWellFormed (pick index f offered) d = update_condition-IsDraft_field index f offered d
Edit-IsWellFormed clear d = record { distinct = tt; within = tt }

Reach-IsWellFormed : {m n : FilterModal} → Reach m n → IsWellFormed m → IsWellFormed n
Reach-IsWellFormed here d = d
Reach-IsWellFormed (next r e) d = Edit-IsWellFormed e (Reach-IsWellFormed r d)

Edit-fields : {m n : FilterModal} → Edit m n → n.fields ≡ m.fields
unfolding add_row remove_row set_value pick_field clear_all
Edit-fields (add ready) = refl
Edit-fields (remove index) = refl
Edit-fields (value index v) = refl
Edit-fields (pick index f offered) = refl
Edit-fields clear = refl

Reach-fields : {m n : FilterModal} → Reach m n → n.fields ≡ m.fields
Reach-fields here = refl
Reach-fields (next r e) = Edit-fields e ∙ Reach-fields r

open_modal-IsWellFormed :
    (config : EntityConfig) (filters : List (String × String))
    → Distinct (keys filters)
    → IsWellFormed (open_modal config filters)
unfolding open_modal
open_modal-IsWellFormed config filters d =
    conditions_from_filters-IsDraft filters (filterable_fields config) d

-- From a dialog opened on applied filters that name each field once, every sequence of the edits
-- that the controls offer leads to a draft that names no field twice and only fields that the
-- entity serves as filterable.
pub Reach-IsDraft :
    (config : EntityConfig) (filters : List (String × String)) {m : FilterModal}
    → Distinct (keys filters)
    → Reach (open_modal config filters) m
    → IsDraft (filterable_fields config) m.draft
unfolding open_modal
Reach-IsDraft config filters {m} d r =
    let start = open_modal-IsWellFormed config filters d in
    rw (← Reach-fields r) (Reach-IsWellFormed r start)

length-claimed_of : (cs : List FilterCondition) → length (claimed_of cs) ≡ length cs
length-claimed_of [] = refl
length-claimed_of (c ∷ cs) = omega (arith, length-claimed_of cs)

length-names_of : (fs : List FieldConfig) → length (names_of fs) ≡ length fs
length-names_of [] = refl
length-names_of (f ∷ fs) = omega (arith, length-names_of fs)

length-draft-le :
    (fields : List FieldConfig) (draft : List FilterCondition)
    → IsDraft fields draft
    → length draft ≤ length fields
length-draft-le fields draft d = omega (
  arith,
  length-claimed_of draft,
  length-names_of fields,
  length-le_of_Within (claimed_of draft) (names_of fields) d.distinct d.within,
)

-- Nor has the draft ever more rows than the entity has filterable fields.
pub Reach-length :
    (config : EntityConfig) (filters : List (String × String)) {m : FilterModal}
    → Distinct (keys filters)
    → Reach (open_modal config filters) m
    → length m.draft ≤ length (filterable_fields config)
Reach-length config filters {m} d r =
    length-draft-le (filterable_fields config) m.draft (Reach-IsDraft config filters d r)

Within-of_has :
    (ms ns : List String) → ((n : String) → has ms n ≡ true → has ns n ≡ true) → Within ms ns
Within-of_has [] ns h = tt
Within-of_has (m ∷ ms) ns h =
    (h m (ground (arith, eq_iff m m)), Within-of_has ms ns (λ n k. h n (ground arith)))

-- No further row can be added only when each field is claimed.
length-fields-le :
    (m : FilterModal)
    → Distinct (names_of m.fields)
    → next_unused_field m.fields m.draft ≡ none
    → length m.fields ≤ length m.draft
unfolding next_unused_field
length-fields-le m u full =
    let covered =
      Within-of_has (names_of m.fields) (claimed_of m.draft)
        (λ n k. find?-none (has (claimed_of m.draft)) m.fields n full k) in
    omega (
      arith,
      length-claimed_of m.draft,
      length-names_of m.fields,
      length-le_of_Within (names_of m.fields) (claimed_of m.draft) u covered,
    )

length-add_condition :
    (m : FilterModal) {f : FieldConfig}
    → next_unused_field m.fields m.draft ≡ some f
    → length (add_condition m.fields m.draft) ≡ suc (length m.draft)
unfolding add_condition
length-add_condition m found =
    rw (found, add_condition) (omega (arith, length-append {0} m.draft (_ ∷ [])))

-- In a well-formed draft over distinct fields the Add button is disabled exactly when every field
-- has its row.
can_add-false_iff :
    (m : FilterModal)
    → Distinct (names_of m.fields)
    → IsDraft m.fields m.draft
    → (can_add m ≡ false) ↔ (length m.draft ≡ length m.fields)
unfolding can_add
can_add-false_iff m u d = elim (Option-cases (next_unused_field m.fields m.draft)) [
  | inl full ↦ (
    λ _. omega (arith, length-fields-le m u full, length-draft-le m.fields m.draft d),
    λ _. rw full,
  )
  | inr (f, found) ↦
      let room =
        length-draft-le m.fields (add_condition m.fields m.draft) (add_condition-IsDraft d) in
      let longer = length-add_condition m found in (λ e. cc (found), λ e. absurd (omega arith))
]
