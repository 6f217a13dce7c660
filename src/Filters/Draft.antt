-- ===== src/Filters/Draft.antt =====
-- The draft of the Filter modal never names a field twice, and names filterable fields only.
use testnexa.Base.{
  ℕ, zero, suc, String, ◌≡◌, refl, ap, inl, inr, Bool, true, false, not, ◌&&◌, none, some, List, [],
  ◌∷◌, ◌++◌, arith, eq_iff, filter, find?, length, set, remove_at, modify_at, Bool-cases,
  Option-cases, leb,
}
use testnexa.Base.Names.{
  has, Distinct, Within, Distinct-concat, Distinct-remove_at, Within-remove_at, Distinct-set,
  Within-set,
}
use testnexa.Base.Dict.{keys}
use testnexa.Base.Index.{ℤ, pos, negsuc, map-remove_at}
use testnexa.Entity.{FieldConfig, names_of}
use testnexa.Filters.{
  FilterCondition, claimed_of, available_fields_for, next_unused_field, add_condition,
  remove_condition, apply_patch, update_condition, conditions_from_filters, is_known,
}

-- No field twice, and each one selectable.
pub record IsDraft (fields : List FieldConfig) (draft : List FilterCondition) : Type 0 where
  pub distinct : Distinct (claimed_of draft)
  pub within : Within (claimed_of draft) (names_of fields)

-- A field that a search returns is one of the fields, and passes the test.
find?-names :
    (p : FieldConfig → Bool) (fs : List FieldConfig) (f : FieldConfig)
    → find? p fs ≡ some f
    → (p f ≡ true) × (has (names_of fs) f.name ≡ true)
find?-names p [] f h = cc
find?-names p (g ∷ fs) f h = elim (Bool-cases (p g)) [
  | inl found ↦
      let e : g ≡ f = ground arith in rw (← e) (found, ground (arith, eq_iff g.name g.name))
  | inr other ↦ let (holds, listed) = find?-names p fs f (ground arith) in (holds, ground arith)
]

-- Where the search returns nothing, every field fails the test.
pub find?-none :
    (p : String → Bool) (fs : List FieldConfig) (n : String)
    → find? (λ f. not (p f.name)) fs ≡ none
    → has (names_of fs) n ≡ true
    → p n ≡ true
find?-none p [] n h m = cc
find?-none p (g ∷ fs) n h m = ground (arith, eq_iff g.name n, find?-none p fs n)

claimed_of-append :
    (cs : List FilterCondition) (c : FilterCondition)
    → claimed_of (cs ++ c ∷ []) ≡ claimed_of cs ++ c.field ∷ []
claimed_of-append [] c = refl
claimed_of-append (d ∷ cs) c = ap (◌∷◌ d.field) (claimed_of-append cs c)

Within-concat :
    (ms ns : List String) (n : String) → Within ms ns → has ns n ≡ true → Within (ms ++ n ∷ []) ns
Within-concat [] ns n w h = (h, tt)
Within-concat (m ∷ ms) ns n (k, w) h = (k, Within-concat ms ns n w h)

-- Adding a row keeps the draft well formed.
pub add_condition-IsDraft :
    {fields : List FieldConfig} {draft : List FilterCondition}
    → IsDraft fields draft
    → IsDraft fields (add_condition fields draft)
unfolding add_condition
add_condition-IsDraft {fields} {draft} d = elim (Option-cases (next_unused_field fields draft)) [
  | inl full ↦ rw (full, add_condition) d
  | inr (f, found) ↦
      let (fresh, listed) = find?-names (λ g. not (has (claimed_of draft) g.name)) fields f found in
      rw (found, add_condition)
        (record {
          distinct =
              rw claimed_of-append
                (Distinct-concat (claimed_of draft) f.name d.distinct (ground arith));
          within =
              rw claimed_of-append
                (Within-concat (claimed_of draft) (names_of fields) f.name d.within listed);
        })
]

-- So does removing one, at any index.
pub remove_condition-IsDraft :
    {fields : List FieldConfig} {draft : List FilterCondition} (index : ℤ)
    → IsDraft fields draft
    → IsDraft fields (remove_condition draft index)
unfolding remove_condition
remove_condition-IsDraft (negsuc n) d = d
remove_condition-IsDraft {fields} {draft} (pos i) d = elim (Bool-cases (leb (length draft) i)) [
  | inl out ↦ rw out d
  | inr inside ↦
      let kept = map-remove_at (λ (c : FilterCondition). c.field) i draft in
      rw inside (record {
        distinct = rw kept (Distinct-remove_at i (claimed_of draft) d.distinct);
        within = rw kept (Within-remove_at i (claimed_of draft) (names_of fields) d.within);
      })
]

-- A patch without a field keeps the claimed fields; one with a field writes it.
claimed_of-set_value :
    (i : ℕ) (draft : List FilterCondition) (v : String)
    → claimed_of (modify_at i (apply_patch (record { field = none; value = some v })) draft)
      ≡ claimed_of draft
unfolding apply_patch
claimed_of-set_value zero [] v = refl
claimed_of-set_value (suc i) [] v = refl
claimed_of-set_value zero (c ∷ cs) v = refl
claimed_of-set_value (suc i) (c ∷ cs) v = ap (◌∷◌ c.field) (claimed_of-set_value i cs v)

claimed_of-pick_field :
    (i : ℕ) (draft : List FilterCondition) (f : String)
    → claimed_of (modify_at i (apply_patch (record { field = some f; value = none })) draft)
      ≡ set (claimed_of draft) i f
unfolding apply_patch
claimed_of-pick_field zero [] f = refl
claimed_of-pick_field (suc i) [] f = refl
claimed_of-pick_field zero (c ∷ cs) f = ground arith
claimed_of-pick_field (suc i) (c ∷ cs) f = ap (◌∷◌ c.field) (claimed_of-pick_field i cs f)

-- What a row's picker offers is a field of the list that no other row claims.
available_iff :
    (taken : List String) (fields : List FieldConfig) (f : String)
    → has (names_of (filter (λ g. not (has taken g.name)) fields)) f
      ≡ (has (names_of fields) f && not (has taken f))
available_iff taken [] f = refl
available_iff taken (g ∷ gs) f = ground (arith, eq_iff g.name f, available_iff taken gs f)

pub update_condition-IsDraft_value :
    {fields : List FieldConfig} {draft : List FilterCondition} (index : ℤ) (v : String)
    → IsDraft fields draft
    → IsDraft fields (update_condition draft index (record { field = none; value = some v }))
unfolding update_condition
update_condition-IsDraft_value (negsuc n) v d = d
update_condition-IsDraft_value {draft} (pos i) v d = record {
  distinct = rw (claimed_of-set_value i draft v) d.distinct;
  within = rw (claimed_of-set_value i draft v) d.within;
}

pub update_condition-IsDraft_field :
    {fields : List FieldConfig} {draft : List FilterCondition} (index : ℤ) (f : String)
    → has (names_of (available_fields_for fields draft index)) f ≡ true
    → IsDraft fields draft
    → IsDraft fields (update_condition draft index (record { field = some f; value = none }))
unfolding update_condition available_fields_for
update_condition-IsDraft_field (negsuc n) f h d = d
update_condition-IsDraft_field {fields} {draft} (pos i) f h d =
    let offered = available_iff (claimed_of (remove_at i draft)) fields f in
    let free : has (remove_at i (claimed_of draft)) f ≡ false =
      rw (← map-remove_at (λ (c : FilterCondition). c.field) i draft) (ground arith) in
    record {
      distinct =
          rw (claimed_of-pick_field i draft f)
            (Distinct-set i (claimed_of draft) f d.distinct free);
      within =
          rw (claimed_of-pick_field i draft f)
            (Within-set i (claimed_of draft) (names_of fields) f d.within (ground arith));
    }

-- Opening the dialog on applied filters, each field once, seeds a well-formed draft.
has-conditions_from_filters :
    (filters : List (String × String)) (fields : List FieldConfig) (f : String)
    → has (keys filters) f ≡ false
    → has (claimed_of (conditions_from_filters filters fields)) f ≡ false
unfolding conditions_from_filters
has-conditions_from_filters [] fields f h = refl
has-conditions_from_filters ((k, v) ∷ m) fields f h =
    ground (arith, has-conditions_from_filters m fields f)

pub conditions_from_filters-IsDraft :
    (filters : List (String × String)) (fields : List FieldConfig)
    → Distinct (keys filters)
    → IsDraft fields (conditions_from_filters filters fields)
unfolding conditions_from_filters
conditions_from_filters-IsDraft [] fields d = record { distinct = tt; within = tt }
conditions_from_filters-IsDraft ((k, v) ∷ m) fields (fresh, d) =
    let rest = conditions_from_filters-IsDraft m fields d in
    elim (Bool-cases (is_known fields (k, v))) [
      | inl known ↦ rw known (record {
        distinct = (has-conditions_from_filters m fields k fresh, rest.distinct);
        within = (ground arith, rest.within);
      })
      | inr unknown ↦ rw unknown rest
    ]
