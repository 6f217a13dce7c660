-- ===== src/Columns/Reload.antt =====
-- A reordered and partly hidden set of rows survives being stored and merged again.
use testnexa.Base.{
  String, ◌≡◌, refl, ◌∙◌, inl, inr, false, not, some, List, [], ◌∷◌, map, arith, ◌==◌, eq_iff,
  filter, All, Bool-cases,
}
use testnexa.Base.Names.{has, Distinct}
use testnexa.Base.Dedup.{dedup, filter_all_false, filter_all_true, dedup_of_Distinct, has-dedup}
use testnexa.Entity.{FieldConfig, names_of}
use testnexa.Columns.{
  ColumnPreferenceRow, ordered_fields, row_of, fields_of, to_preference_rows, preferences_from_rows,
}
use testnexa.Columns.Merge.{names_of-ordered_fields}
use testnexa.Columns.Rows.{IsRow, IsRows, IsGenuine, genuine-eq, IsGenuine-ordered_fields}
use mathlib.Core.List.{append-nil}
use mathlib.Core.Path.{subst}

-- `rows.filter((row) => !row.visible).map((row) => row.field.name)`
abbrev hidden_names : List ColumnPreferenceRow → List String
hidden_names rows = names_of (fields_of (filter (λ row. not row.visible) rows))

abbrev name_of : ColumnPreferenceRow → String
name_of row = row.field.name

has-hidden_names :
    (rows : List ColumnPreferenceRow) (n : String)
    → has (names_of (fields_of rows)) n ≡ false
    → has (hidden_names rows) n ≡ false
has-hidden_names [] n h = refl
has-hidden_names (row ∷ rows) n h = ground (arith, has-hidden_names rows n)

others :
    (rows : List ColumnPreferenceRow) (n : String)
    → has (names_of (fields_of rows)) n ≡ false
    → All (λ row. (n == name_of row) ≡ false) rows
others [] n h = tt
others (row ∷ rows) n h =
    (ground (arith, eq_iff n (name_of row), eq_iff (name_of row) n), others rows n (ground arith))

abbrev Hides : List String → ColumnPreferenceRow → Type 0
Hides hidden row = has hidden (name_of row) ≡ not row.visible

Hides-cons :
    (hidden : List String) (n : String) (rows : List ColumnPreferenceRow)
    → All (λ row. (n == name_of row) ≡ false) rows
    → All (Hides hidden) rows
    → All (Hides (n ∷ hidden)) rows
Hides-cons hidden n [] _ _ = tt
Hides-cons hidden n (row ∷ rows) (ne, nes) (h, hs) = (ground arith, Hides-cons hidden n rows nes hs)

-- Among rows of distinct fields the stored list hides exactly the rows that are not visible.
Hides-each :
    (rows : List ColumnPreferenceRow)
    → Distinct (names_of (fields_of rows))
    → All (Hides (hidden_names rows)) rows
Hides-each [] d = tt
Hides-each (row ∷ rows) (fresh, d) =
    let rest = Hides-each rows d in
    elim (Bool-cases row.visible) [
      | inl seen ↦
          let same : hidden_names rows ≡ hidden_names (row ∷ rows) = ground arith in
          subst (λ hidden. All (Hides hidden) (row ∷ rows)) same
            (ground (arith, has-hidden_names rows (name_of row)), rest)
      | inr unseen ↦
          let more : name_of row ∷ hidden_names rows ≡ hidden_names (row ∷ rows) = ground arith in
          subst (λ hidden. All (Hides hidden) (row ∷ rows)) more
            (
              ground (arith, eq_iff (name_of row) (name_of row)),
              Hides-cons (hidden_names rows) (name_of row) rows (others rows (name_of row) fresh)
                  rest,
            )
    ]

rebuild :
    (fields : List FieldConfig) (hidden locked : List String) (rows : List ColumnPreferenceRow)
    → All (IsRow fields locked) rows
    → All (Hides hidden) rows
    → map (row_of hidden locked) (fields_of rows) ≡ rows
rebuild fields hidden locked [] _ _ = refl
rebuild fields hidden locked (row ∷ rows) (r, rs) (h, hs) =
    let rest = rebuild fields hidden locked rows rs hs in ground (arith, r.lock, r.shown)

IsGenuine-rows :
    (fields : List FieldConfig) (locked : List String) (rows : List ColumnPreferenceRow)
    → All (IsRow fields locked) rows
    → All (IsGenuine fields) (fields_of rows)
IsGenuine-rows fields locked [] _ = tt
IsGenuine-rows fields locked (row ∷ rows) (r, rs) =
    (r.genuine, IsGenuine-rows fields locked rows rs)

reorder :
    (fields : List FieldConfig) (locked : List String) (rows : List ColumnPreferenceRow)
    → Distinct (names_of fields)
    → IsRows fields locked rows
    → ordered_fields fields (names_of (fields_of rows)) ≡ fields_of rows
reorder fields locked rows d r =
    let ns = names_of (fields_of rows) in
    let front = filter_all_true (has (names_of fields)) ns (λ m h. ground (arith, r.served m)) in
    let back =
      filter_all_false (λ m. not (has ns m)) (dedup (names_of fields))
        (λ m h. ground (arith, r.served m, has-dedup (names_of fields) m)) in
    genuine-eq fields _ _ (IsGenuine-ordered_fields fields ns d)
      (IsGenuine-rows fields locked rows r.each)
      (names_of-ordered_fields fields ns
        ∙ rw (dedup_of_Distinct ns r.distinct, front, back) (append-nil ns))

-- Storing the rows and merging the stored preference into the same schema gives the same rows, in
-- the same order with the same visibility.
pub to_preference_rows-preferences_from_rows :
    (fields : List FieldConfig) (locked : List String) (rows : List ColumnPreferenceRow)
    → Distinct (names_of fields)
    → IsRows fields locked rows
    → to_preference_rows fields (some (preferences_from_rows rows)) locked ≡ rows
unfolding to_preference_rows preferences_from_rows
to_preference_rows-preferences_from_rows fields locked rows d r =
    rw (reorder fields locked rows d r)
      (rebuild fields (hidden_names rows) locked rows r.each (Hides-each rows r.distinct))
