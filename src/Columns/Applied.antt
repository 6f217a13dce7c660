-- ===== src/Columns/Applied.antt =====
-- Which columns the table renders under any stored preference.
use testnexa.Base.{
  String, ◌≡◌, refl, sym, ap, ◌∙◌, inl, inr, Bool, true, false, not, ◌&&◌, ◌||◌, Option, List, [],
  ◌∷◌, map, arith, eq_iff, filter, any, is_empty, Bool-cases,
}
use testnexa.Base.Names.{has}
use testnexa.Base.Dedup.{has-filter}
use testnexa.Entity.{FieldConfig, names_of}
use testnexa.Columns.{
  ColumnPreferences, order_of, hidden_of, row_of, fields_of, visible_of, ordered_fields,
  to_preference_rows, apply_column_preferences,
}
use testnexa.Columns.Rows.{fields_of-map, known-ordered_fields}

-- Whether the preference leaves a field of this name visible.
abbrev pub is_shown : Option ColumnPreferences → List String → String → Bool
is_shown preferences locked n = has locked n || not (has (hidden_of preferences) n)

names-visible :
    (p : Option ColumnPreferences) (locked : List String) (fs : List FieldConfig)
    → names_of (fields_of (filter visible_of (map (row_of (hidden_of p) locked) fs)))
      ≡ filter (is_shown p locked) (names_of fs)
names-visible p locked [] = refl
names-visible p locked (f ∷ fs) = ground (arith, names-visible p locked fs)

any-has :
    (p : String → Bool) (ns : List String) (n : String)
    → has ns n ≡ true
    → p n ≡ true
    → any p ns ≡ true
any-has p [] n h k = cc
any-has p (m ∷ ns) n h k = ground (arith, eq_iff m n, any-has p ns n)

any-witness :
    (p : String → Bool) (ns : List String)
    → any p ns ≡ true
    → (n : String) × (has ns n ≡ true) × (p n ≡ true)
any-witness p [] h = cc
any-witness p (m ∷ ns) h = elim (Bool-cases (p m)) [
  | inl holds ↦ (m, ground (arith, eq_iff m m), holds)
  | inr fails ↦ let (n, k, holds) = any-witness p ns (ground arith) in (n, ground arith, holds)
]

any_congr :
    (p : String → Bool) (ms ns : List String)
    → ((n : String) → has ms n ≡ has ns n)
    → any p ms ≡ any p ns
any_congr p ms ns h = elim (Bool-cases (any p ms)) [
  | inl yes_ms ↦
      let (n, k, holds) = any-witness p ms yes_ms in
      yes_ms ∙ sym (any-has p ns n (sym (h n) ∙ k) holds)
  | inr no_ms ↦ elim (Bool-cases (any p ns)) [
    | inl yes_ns ↦
        let (n, k, holds) = any-witness p ns yes_ns in cc (any-has p ms n (h n ∙ k) holds)
    | inr no_ns ↦ no_ms ∙ sym no_ns
  ]
]

is_empty-names_of : (fs : List FieldConfig) → is_empty fs ≡ is_empty (names_of fs)
is_empty-names_of [] = refl
is_empty-names_of (f ∷ fs) = refl

is_empty-filter : (p : String → Bool) (ns : List String) → is_empty (filter p ns) ≡ not (any p ns)
is_empty-filter p [] = refl
is_empty-filter p (n ∷ ns) = ground (arith, is_empty-filter p ns)

nonempty_of_has :
    (fs gs : List FieldConfig)
    → ((n : String) → has (names_of gs) n ≡ has (names_of fs) n)
    → is_empty fs ≡ false
    → is_empty gs ≡ false
nonempty_of_has [] gs h e = cc
nonempty_of_has (f ∷ fs) [] h e = ground (arith, h f.name, eq_iff f.name f.name)
nonempty_of_has (f ∷ fs) (g ∷ gs) h e = refl

-- The two outcomes of `applyColumnPreferences`, by whether any column stays visible.
module _ (fields : List FieldConfig) (p : Option ColumnPreferences) (locked : List String) where
  abbrev ordered : List FieldConfig
  ordered = ordered_fields fields (order_of p)

  abbrev visible : List FieldConfig
  visible = fields_of (filter visible_of (map (row_of (hidden_of p) locked) ordered))

  empty-visible : is_empty visible ≡ not (any (is_shown p locked) (names_of fields))
  empty-visible =
      is_empty-names_of visible
      ∙ ap is_empty (names-visible p locked ordered)
      ∙ is_empty-filter (is_shown p locked) (names_of ordered)
      ∙ ap not (
          any_congr (is_shown p locked) (names_of ordered) (names_of fields)
            (known-ordered_fields fields (order_of p)))

  apply-some :
      any (is_shown p locked) (names_of fields) ≡ true
      → apply_column_preferences fields p locked ≡ visible
  unfolding apply_column_preferences to_preference_rows
  apply-some h = rw (empty-visible, h) refl

  apply-none :
      any (is_shown p locked) (names_of fields) ≡ false
      → apply_column_preferences fields p locked ≡ ordered
  unfolding apply_column_preferences to_preference_rows
  apply-none h = rw (empty-visible, h) (fields_of-map (hidden_of p) locked ordered)

  -- A name is among the rendered columns exactly if the schema serves it and either the
  -- preference leaves it visible, a lock counting as visible, or it leaves nothing visible at all.
  has-apply_column_preferences :
      (n : String)
      → has (names_of (apply_column_preferences fields p locked)) n ≡ (
          has (names_of fields) n
          && (is_shown p locked n || not (any (is_shown p locked) (names_of fields))))
  has-apply_column_preferences n =
      let known = known-ordered_fields fields (order_of p) n in
      elim (Bool-cases (any (is_shown p locked) (names_of fields))) [
        | inl shown ↦
            rw (apply-some shown, names-visible p locked ordered)
              (ground (arith, has-filter (is_shown p locked) (names_of ordered) n))
        | inr hidden ↦ rw (apply-none hidden) (ground arith)
      ]

  ordered-nonempty : is_empty fields ≡ false → is_empty ordered ≡ false
  ordered-nonempty h = nonempty_of_has fields ordered (known-ordered_fields fields (order_of p)) h

  -- An entity with fields never renders a table without columns, whatever was stored.
  pub apply_column_preferences-nonempty :
      is_empty fields ≡ false → is_empty (apply_column_preferences fields p locked) ≡ false
  apply_column_preferences-nonempty h =
      elim (Bool-cases (any (is_shown p locked) (names_of fields))) [
        | inl shown ↦ rw (apply-some shown, empty-visible, shown) refl
        | inr hidden ↦ rw (apply-none hidden) (ordered-nonempty h)
      ]
