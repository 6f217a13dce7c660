-- ===== src/Filters/Wire.antt =====
-- What the filter map holds that a draft is serialised to, and what reopening the dialog shows.
use testnexa.Base.{
  String, ◌≡◌, refl, sym, ◌∙◌, inl, inr, true, false, ◌&&◌, Option, none, some, List, [], ◌∷◌, ◌++◌,
  map, arith, ◌==◌, eq_iff, filter, length, Bool-cases, if◌then◌else◌,
}
use testnexa.Base.Names.{has, Distinct, Within}
use testnexa.Base.Dict.{keys, lookup, insert, lookup-insert, insert-new, insert-Distinct}
use testnexa.Entity.{FieldConfig, names_of}
use testnexa.Filters.{
  FilterCondition, claimed_of, is_complete, collect, filters_from_conditions, is_known,
  conditions_from_filters, active_filter_count,
}
use testnexa.Filters.Draft.{IsDraft, conditions_from_filters-IsDraft}
use mathlib.Core.List.{append_assoc, append-nil}

-- The value of the last complete row that names the field.
pub last_value : String → List FilterCondition → Option String
last_value k [] = none
last_value k (c ∷ cs) = elim (last_value k cs) [
  | some v ↦ some v
  | none ↦ if is_complete c && c.field == k then some c.value else none
]

abbrev or_else : Option String → Option String → Option String
or_else (some v) o = some v
or_else none o = o

lookup-collect :
    (k : String) (out : List (String × String)) (cs : List FilterCondition)
    → lookup k (collect out cs) ≡ or_else (last_value k cs) (lookup k out)
unfolding collect last_value
lookup-collect k out [] = refl
lookup-collect k out (c ∷ cs) = ground (
  arith,
  lookup-collect k (insert c.field c.value out) cs,
  lookup-collect k out cs,
  lookup-insert c.field k c.value out,
)

or_else-none : (o : Option String) → or_else o none ≡ o
or_else-none none = refl
or_else-none (some v) = refl

-- Under each key the submitted map holds the value of the last complete row that names it, and
-- nothing if there is no such row; an incomplete row never reaches the map.
lookup-filters_from_conditions :
    (k : String) (draft : List FilterCondition)
    → lookup k (filters_from_conditions draft) ≡ last_value k draft
unfolding filters_from_conditions
lookup-filters_from_conditions k draft =
    lookup-collect k [] draft ∙ or_else-none (last_value k draft)

collect-Distinct :
    (out : List (String × String)) (cs : List FilterCondition)
    → Distinct (keys out)
    → Distinct (keys (collect out cs))
unfolding collect
collect-Distinct out [] d = d
collect-Distinct out (c ∷ cs) d = elim (Bool-cases (is_complete c)) [
  | inl done ↦
      rw done
        (collect-Distinct (insert c.field c.value out) cs (insert-Distinct c.field c.value out d))
  | inr open_row ↦ rw open_row (collect-Distinct out cs d)
]

abbrev pub entry_of : FilterCondition → String × String
entry_of c = (c.field, c.value)

keys-concat :
    (out : List (String × String)) (k v n : String)
    → has (keys (out ++ (k, v) ∷ [])) n ≡ (if k == n then true else has (keys out) n)
keys-concat [] k v n = ground arith
keys-concat ((j, w) ∷ m) k v n = ground (arith, keys-concat m k v n)

-- Over distinct fields the loop appends the complete rows.
collect-append :
    (out : List (String × String)) (cs : List FilterCondition)
    → Distinct (claimed_of cs)
    → ((n : String) → has (claimed_of cs) n ≡ true → has (keys out) n ≡ false)
    → collect out cs ≡ out ++ map entry_of (filter is_complete cs)
unfolding collect
collect-append out [] d free = sym (append-nil out)
collect-append out (c ∷ cs) (fresh, d) free = elim (Bool-cases (is_complete c)) [
  | inl done ↦
      let new : has (keys out) c.field ≡ false =
        free c.field (ground (arith, eq_iff c.field c.field)) in
      rw (done, insert-new c.field c.value out new)
        (collect-append (out ++ (c.field, c.value) ∷ []) cs d
            (λ n h. ground (arith, keys-concat out c.field c.value n, free n, eq_iff c.field n))
          ∙ append_assoc out ((c.field, c.value) ∷ []) (map entry_of (filter is_complete cs)))
  | inr open_row ↦ rw open_row (collect-append out cs d (λ n h. free n (ground arith)))
]

filters-eq :
    (fields : List FieldConfig) (draft : List FilterCondition)
    → IsDraft fields draft
    → filters_from_conditions draft ≡ map entry_of (filter is_complete draft)
unfolding filters_from_conditions
filters-eq fields draft d = collect-append [] draft d.distinct (λ n h. refl)

reopen :
    (fields : List FieldConfig) (cs : List FilterCondition)
    → Within (claimed_of cs) (names_of fields)
    → conditions_from_filters (map entry_of (filter is_complete cs)) fields ≡ filter is_complete cs
unfolding conditions_from_filters
reopen fields [] w = refl
reopen fields (c ∷ cs) (known, w) = ground (arith, reopen fields cs w)

-- Applying a well-formed draft and opening the dialog again shows its complete rows, in their
-- order, and drops the incomplete ones.
pub conditions_from_filters-filters_from_conditions :
    (fields : List FieldConfig) (draft : List FilterCondition)
    → IsDraft fields draft
    → conditions_from_filters (filters_from_conditions draft) fields ≡ filter is_complete draft
conditions_from_filters-filters_from_conditions fields draft d =
    rw (filters-eq fields draft d) (reopen fields draft d.within)

count_complete :
    (cs : List FilterCondition)
    → active_filter_count (map entry_of (filter is_complete cs)) ≡ length (filter is_complete cs)
unfolding active_filter_count
count_complete [] = refl
count_complete (c ∷ cs) = ground (arith, count_complete cs)

-- The badge counts the complete rows of the well-formed draft that was applied.
pub active_filter_count-filters_from_conditions :
    (fields : List FieldConfig) (draft : List FilterCondition)
    → IsDraft fields draft
    → active_filter_count (filters_from_conditions draft) ≡ length (filter is_complete draft)
active_filter_count-filters_from_conditions fields draft d =
    rw (filters-eq fields draft d) (count_complete draft)

resend :
    (fields : List FieldConfig) (filters : List (String × String))
    → has (names_of fields) "" ≡ false
    → map entry_of (filter is_complete (conditions_from_filters filters fields))
      ≡ filter (is_known fields) filters
unfolding conditions_from_filters
resend fields [] named = refl
resend fields ((k, v) ∷ m) named = ground (arith, resend fields m named, eq_iff k "")

-- Opening the dialog on applied filters and applying at once keeps exactly the filters with a
-- value whose field is still filterable, where no field has the empty name.
filters_from_conditions-conditions_from_filters :
    (filters : List (String × String)) (fields : List FieldConfig)
    → Distinct (keys filters)
    → has (names_of fields) "" ≡ false
    → filters_from_conditions (conditions_from_filters filters fields)
      ≡ filter (is_known fields) filters
filters_from_conditions-conditions_from_filters filters fields d named =
    filters-eq fields _ (conditions_from_filters-IsDraft filters fields d)
    ∙ resend fields filters named
