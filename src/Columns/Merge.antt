-- ===== src/Columns/Merge.antt =====
-- The order that a stored preference and the current schema are merged into.
use testnexa.Base.{
  String, ◌≡◌, refl, sym, ap, ◌∙◌, inl, inr, ◌⊎◌, Bool, true, false, not, ◌&&◌, ◌||◌, none, some,
  List, [], ◌∷◌, ◌++◌, arith, ◌==◌, eq_iff, filter, Bool-cases,
}
use testnexa.Base.Names.{has}
use testnexa.Base.Dedup.{dedup, filter-without, has-dedup, filter_congr_on}
use testnexa.Entity.{FieldConfig, names_of}
use testnexa.Columns.{
  by_name, Placing, place_field, place_name, place_names, place_fields, ordered_fields,
}
use mathlib.Core.List.{append_assoc, append-nil}

pub names_of-append : (fs gs : List FieldConfig) → names_of (fs ++ gs) ≡ names_of fs ++ names_of gs
names_of-append [] gs = refl
names_of-append (f ∷ fs) gs = ap (◌∷◌ f.name) (names_of-append fs gs)

-- A name is found exactly if a field has it, and the field found has it.
pub by_name-cases :
    (n : String) (fs : List FieldConfig)
    → (by_name n fs ≡ none) × (has (names_of fs) n ≡ false)
      ⊎ ((f : FieldConfig) × (by_name n fs ≡ some f) × (f.name ≡ n) × (has (names_of fs) n ≡ true))
by_name-cases n [] = inl (refl, refl)
by_name-cases n (f ∷ fs) = elim (by_name-cases n fs) [
  | inr (g, found, named, known) ↦ inr (g, rw found, named, ground arith)
  | inl (missing, unknown) ↦ elim (Bool-cases (f.name == n)) [
    | inl same ↦ inr (f, rw (missing, same), (eq_iff f.name n).0 same, ground arith)
    | inr other ↦ inl (rw (missing, other), ground arith)
  ]
]

-- The names that the first loop adds.
abbrev pub fresh_in : List FieldConfig → Placing → String → Bool
fresh_in fields acc n = has (names_of fields) n && not (has acc.placed n)

-- One round places a known name that is not placed yet, and leaves the rest.
pub place_name-cases :
    (fields : List FieldConfig) (acc : Placing) (n : String)
    → (place_name fields acc n ≡ acc) × (fresh_in fields acc n ≡ false)
      ⊎ ((f : FieldConfig) × (place_name fields acc n
            ≡ record { ordered = acc.ordered ++ f ∷ []; placed = n ∷ acc.placed })
          × (by_name n fields ≡ some f)
          × (f.name ≡ n)
          × (fresh_in fields acc n ≡ true))
unfolding place_name
place_name-cases fields acc n = elim (by_name-cases n fields) [
  | inl (missing, unknown) ↦ inl (rw (missing, place_name), ground arith)
  | inr (f, found, named, known) ↦ elim (Bool-cases (has acc.placed n)) [
    | inl old ↦ inl (rw (found, place_name, old), ground arith)
    | inr new ↦ inr (f, rw (found, place_name, new), found, named, ground arith)
  ]
]

-- What a round adds is the first of the fresh names that are left.
step-place_name :
    (fields : List FieldConfig) (acc : Placing) (n : String) (ns : List String)
    → names_of (place_name fields acc n).ordered
        ++ filter (fresh_in fields (place_name fields acc n)) (dedup ns)
      ≡ names_of acc.ordered ++ filter (fresh_in fields acc) (dedup (n ∷ ns))
step-place_name fields acc n ns = elim (place_name-cases fields acc n) [
  | inl (same, stale) ↦
      let skip =
        filter-without n (fresh_in fields acc) (fresh_in fields acc) (dedup ns)
          (λ m. ground (arith, eq_iff n m)) in
      rw (same, stale) (ap (λ l. names_of acc.ordered ++ l) (sym skip))
  | inr (f, stepped, found, named, fresh) ↦
      let rest =
        filter-without n (fresh_in fields acc)
          (fresh_in fields (record { ordered = acc.ordered; placed = n ∷ acc.placed })) (dedup ns)
          (λ m. ground arith) in
      rw (stepped, fresh, names_of-append acc.ordered (f ∷ []), named, rest)
        (append_assoc (names_of acc.ordered) (n ∷ []) _)
]

names-place_names :
    (fields : List FieldConfig) (acc : Placing) (ns : List String)
    → names_of (place_names fields acc ns).ordered
      ≡ names_of acc.ordered ++ filter (fresh_in fields acc) (dedup ns)
unfolding place_names
names-place_names fields acc [] = sym (append-nil _)
names-place_names fields acc (n ∷ ns) =
    names-place_names fields (place_name fields acc n) ns ∙ step-place_name fields acc n ns

-- What is placed after the first loop: what was, and the known names of the order.
placed-place_name :
    (fields : List FieldConfig) (acc : Placing) (n m : String)
    → has (place_name fields acc n).placed m
      ≡ (has acc.placed m || (has (names_of fields) m && n == m))
placed-place_name fields acc n m = elim (place_name-cases fields acc n) [
  | inl (same, stale) ↦ rw same (ground (arith, eq_iff n m))
  | inr (f, stepped, found, named, fresh) ↦ rw stepped (ground (arith, eq_iff n m))
]

placed-place_names :
    (fields : List FieldConfig) (acc : Placing) (ns : List String) (m : String)
    → has (place_names fields acc ns).placed m
      ≡ (has acc.placed m || (has (names_of fields) m && has ns m))
unfolding place_names
placed-place_names fields acc [] m = ground arith
placed-place_names fields acc (n ∷ ns) m = ground (
  arith,
  placed-place_names fields (place_name fields acc n) ns m,
  placed-place_name fields acc n m,
)

-- A round of the second loop.
pub place_field-old :
    (acc : Placing) (f : FieldConfig) → has acc.placed f.name ≡ true → place_field acc f ≡ acc
unfolding place_field
place_field-old acc f old = rw old

pub place_field-new :
    (acc : Placing) (f : FieldConfig)
    → has acc.placed f.name ≡ false
    → place_field acc f ≡ record { ordered = acc.ordered ++ f ∷ []; placed = f.name ∷ acc.placed }
unfolding place_field
place_field-new acc f new = rw new

abbrev unplaced : Placing → String → Bool
unplaced acc n = not (has acc.placed n)

step-place_field :
    (acc : Placing) (f : FieldConfig) (ns : List String)
    → names_of (place_field acc f).ordered ++ filter (unplaced (place_field acc f)) (dedup ns)
      ≡ names_of acc.ordered ++ filter (unplaced acc) (dedup (f.name ∷ ns))
step-place_field acc f ns = elim (Bool-cases (has acc.placed f.name)) [
  | inl old ↦
      let skip =
        filter-without f.name (unplaced acc) (unplaced acc) (dedup ns)
          (λ m. ground (arith, eq_iff f.name m)) in
      rw (place_field-old acc f old, old) (ap (λ l. names_of acc.ordered ++ l) (sym skip))
  | inr new ↦
      let rest =
        filter-without f.name (unplaced acc)
          (unplaced (record { ordered = acc.ordered; placed = f.name ∷ acc.placed })) (dedup ns)
          (λ m. ground arith) in
      rw (place_field-new acc f new, new, names_of-append acc.ordered (f ∷ []), rest)
        (append_assoc (names_of acc.ordered) (f.name ∷ []) _)
]

names-place_fields :
    (acc : Placing) (fs : List FieldConfig)
    → names_of (place_fields acc fs).ordered
      ≡ names_of acc.ordered ++ filter (unplaced acc) (dedup (names_of fs))
unfolding place_fields
names-place_fields acc [] = sym (append-nil _)
names-place_fields acc (f ∷ fs) =
    names-place_fields (place_field acc f) fs ∙ step-place_field acc f (names_of fs)

-- The merged order is the stored order, each name once and only as far as the schema still serves
-- it, and then the schema's other fields in its own order.
pub names_of-ordered_fields :
    (fields : List FieldConfig) (order : List String)
    → names_of (ordered_fields fields order)
      ≡ filter (has (names_of fields)) (dedup order)
        ++ filter (λ n. not (has order n)) (dedup (names_of fields))
unfolding ordered_fields
names_of-ordered_fields fields order =
    let start : Placing = record { ordered = []; placed = [] } in
    let middle = place_names fields start order in
    let front = names-place_names fields start order in
    let kept =
      filter_congr_on (fresh_in fields start) (has (names_of fields)) (dedup order)
        (λ m h. ground arith) in
    let rest =
      filter_congr_on (unplaced middle) (λ n. not (has order n)) (dedup (names_of fields))
        (λ m h.
          ground (arith, placed-place_names fields start order m, has-dedup (names_of fields) m)) in
    names-place_fields middle fields ∙ rw (front, kept, rest)
