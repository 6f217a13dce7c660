-- ===== src/Columns/Rows.antt =====
-- The rows that the Columns dialog and the table share, and their way through the stored form.
use testnexa.Base.{
  String, ◌≡◌, refl, ap, ◌∙◌, inl, inr, true, not, Option, some, List, [], ◌∷◌, map, arith, eq_iff,
  filter, All, All-concat, All-imp, Bool-cases,
}
use testnexa.Base.Names.{has, Distinct, has-append, Distinct-append}
use testnexa.Base.Dedup.{dedup, has-dedup, has-filter, Distinct-dedup, Distinct-filter}
use testnexa.Entity.{FieldConfig, names_of}
use testnexa.Columns.{
  ColumnPreferences, ColumnPreferenceRow, by_name, Placing, place_field, place_name, place_names,
  place_fields, ordered_fields, order_of, hidden_of, row_of, fields_of, to_preference_rows,
}
use testnexa.Columns.Merge.{
  by_name-cases, place_name-cases, place_field-old, place_field-new, names_of-ordered_fields,
}

-- What a merge shows: each served field once, the schema's own record of it, with the lock of its
-- name; a locked field is visible.
pub record IsRow (fields : List FieldConfig) (locked : List String) (row : ColumnPreferenceRow)
    : Type 0 where
  pub genuine : by_name row.field.name fields ≡ some row.field
  pub lock : row.locked ≡ has locked row.field.name
  pub shown : row.locked ≡ true → row.visible ≡ true

pub record IsRows (fields : List FieldConfig) (locked : List String)
    (rows : List ColumnPreferenceRow) : Type 0 where
  pub distinct : Distinct (names_of (fields_of rows))
  pub served : (n : String) → has (names_of (fields_of rows)) n ≡ has (names_of fields) n
  pub each : All (IsRow fields locked) rows

abbrev pub IsGenuine : List FieldConfig → FieldConfig → Type 0
IsGenuine fields f = by_name f.name fields ≡ some f

IsGenuine-fields : (fs : List FieldConfig) → Distinct (names_of fs) → All (IsGenuine fs) fs
IsGenuine-fields [] d = tt
IsGenuine-fields (f ∷ fs) (fresh, d) = (
  elim (by_name-cases f.name fs) [
    | inl (missing, _) ↦ rw missing (ground (arith, eq_iff f.name f.name))
    | inr (g, _, _, known) ↦ cc
  ],
  All-imp (λ g found. rw found) fs (IsGenuine-fields fs d),
)

module _ (fields : List FieldConfig) where
  IsGenuine-place_names :
      (acc : Placing) (ns : List String)
      → All (IsGenuine fields) acc.ordered
      → All (IsGenuine fields) (place_names fields acc ns).ordered
  unfolding place_names
  IsGenuine-place_names acc [] h = h
  IsGenuine-place_names acc (n ∷ ns) h =
      IsGenuine-place_names (place_name fields acc n) ns (elim (place_name-cases fields acc n) [
        | inl (same, _) ↦ rw same h
        | inr (f, stepped, found, named, _) ↦ rw stepped (
            All-concat (IsGenuine fields) acc.ordered f h
              (ap (λ m. by_name m fields) named ∙ found))
      ])

  IsGenuine-place_fields :
      (acc : Placing) (fs : List FieldConfig)
      → All (IsGenuine fields) acc.ordered
      → All (IsGenuine fields) fs
      → All (IsGenuine fields) (place_fields acc fs).ordered
  unfolding place_fields
  IsGenuine-place_fields acc [] h _ = h
  IsGenuine-place_fields acc (f ∷ fs) h (g, gs) =
      IsGenuine-place_fields (place_field acc f) fs
        (elim (Bool-cases (has acc.placed f.name)) [
          | inl old ↦ rw (place_field-old acc f old) h
          | inr new ↦
              rw (place_field-new acc f new) (All-concat (IsGenuine fields) acc.ordered f h g)
        ])
        gs

  pub IsGenuine-ordered_fields :
      (order : List String)
      → Distinct (names_of fields)
      → All (IsGenuine fields) (ordered_fields fields order)
  unfolding ordered_fields
  IsGenuine-ordered_fields order d =
      IsGenuine-place_fields _ fields (IsGenuine-place_names _ order tt) (IsGenuine-fields fields d)

  -- Genuine fields are known by their names.
  pub genuine-eq :
      (fs gs : List FieldConfig)
      → All (IsGenuine fields) fs
      → All (IsGenuine fields) gs
      → names_of fs ≡ names_of gs
      → fs ≡ gs
  genuine-eq [] [] _ _ e = refl
  genuine-eq [] (g ∷ gs) _ _ e = cc
  genuine-eq (f ∷ fs) [] _ _ e = cc
  genuine-eq (f ∷ fs) (g ∷ gs) (p, ps) (q, qs) e =
      let first : f.name ≡ g.name = cc in
      let same : f ≡ g = cc (ap (λ n. by_name n fields) first) in
      let rest = genuine-eq fs gs ps qs (cc) in cc

  pub known-ordered_fields :
      (order : List String) (n : String)
      → has (names_of (ordered_fields fields order)) n ≡ has (names_of fields) n
  known-ordered_fields order n = rw (names_of-ordered_fields fields order) (
      ground (
        arith,
        has-append (filter (has (names_of fields)) (dedup order))
            (filter (λ m. not (has order m)) (dedup (names_of fields))) n,
        has-filter (has (names_of fields)) (dedup order) n,
        has-filter (λ m. not (has order m)) (dedup (names_of fields)) n,
        has-dedup order n,
        has-dedup (names_of fields) n,
      ))

  Distinct-ordered_fields :
      (order : List String) → Distinct (names_of (ordered_fields fields order))
  Distinct-ordered_fields order = rw (names_of-ordered_fields fields order) (
      Distinct-append (filter (has (names_of fields)) (dedup order))
        (filter (λ m. not (has order m)) (dedup (names_of fields)))
        (Distinct-filter _ (dedup order) (Distinct-dedup order))
        (Distinct-filter _ (dedup (names_of fields)) (Distinct-dedup (names_of fields)))
        (λ n h. ground (
          arith,
          has-filter (has (names_of fields)) (dedup order) n,
          has-filter (λ m. not (has order m)) (dedup (names_of fields)) n,
          has-dedup order n,
        )))

pub fields_of-map :
    (hidden locked : List String) (fs : List FieldConfig)
    → fields_of (map (row_of hidden locked) fs) ≡ fs
fields_of-map hidden locked [] = refl
fields_of-map hidden locked (f ∷ fs) = ap (◌∷◌ f) (fields_of-map hidden locked fs)

each-map :
    (fields : List FieldConfig) (hidden locked : List String) (fs : List FieldConfig)
    → All (IsGenuine fields) fs
    → All (IsRow fields locked) (map (row_of hidden locked) fs)
each-map fields hidden locked [] _ = tt
each-map fields hidden locked (f ∷ fs) (g, gs) = (
  record { genuine = g; lock = refl; shown = λ h. ground arith },
  each-map fields hidden locked fs gs,
)

-- Over a schema with distinct field names, every stored preference, valid or stale, is merged into
-- rows that show each served field exactly once, as the schema has it, under the lock of its
-- name, and never hide a locked field.
pub to_preference_rows-IsRows :
    (fields : List FieldConfig) (preferences : Option ColumnPreferences) (locked : List String)
    → Distinct (names_of fields)
    → IsRows fields locked (to_preference_rows fields preferences locked)
unfolding to_preference_rows
to_preference_rows-IsRows fields preferences locked d =
    let order = order_of preferences in
    let same = fields_of-map (hidden_of preferences) locked (ordered_fields fields order) in
    record {
      distinct = rw same (Distinct-ordered_fields fields order);
      served = λ n. rw same (known-ordered_fields fields order n);
      each =
          each-map fields (hidden_of preferences) locked _
            (IsGenuine-ordered_fields fields order d);
    }
