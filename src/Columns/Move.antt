-- ===== src/Columns/Move.antt =====
-- Moving a row is the exchange of two neighbours, or nothing at either end.
use testnexa.Base.{
  ℕ, zero, suc, ◌≤◌, String, ◌≡◌, refl, ap, ◌∙◌, List, [], ◌∷◌, arith, eq_iff, length, filter, All,
}
use testnexa.Base.Names.{has, Distinct}
use testnexa.Base.Index.{ℤ, pos, negsuc, suc_ℤ}
use testnexa.Entity.{FieldConfig, names_of}
use testnexa.Columns.{
  ColumnPreferenceRow, fields_of, visible_of, Direction, up, down, swap, move_row,
}
use testnexa.Columns.Rows.{IsRow, IsRows}

-- The list with the neighbours at `i` and `i + 1` exchanged, if both are there.
pub swap_at {ℓ} : {A : Type ℓ} → ℕ → List A → List A
swap_at i [] = []
swap_at zero (a ∷ []) = a ∷ []
swap_at zero (a ∷ b ∷ r) = b ∷ a ∷ r
swap_at (suc i) (a ∷ r) = a ∷ swap_at i r

-- Where a move goes: the exchange of a row with its neighbour in the direction.
pub moved : List ColumnPreferenceRow → ℤ → Direction → List ColumnPreferenceRow
moved rows (pos zero) up = rows
moved rows (pos (suc i)) up = swap_at i rows
moved rows (pos i) down = swap_at i rows
moved rows (negsuc n) _ = rows

swap-cons :
    (i j : ℕ) (x : ColumnPreferenceRow) (r : List ColumnPreferenceRow)
    → swap (pos (suc i)) (pos (suc j)) (x ∷ r) ≡ x ∷ swap (pos i) (pos j) r
unfolding swap
swap-cons i j x r = ground arith

swap-down :
    (i : ℕ) (rows : List ColumnPreferenceRow) → swap (pos i) (pos (suc i)) rows ≡ swap_at i rows
unfolding swap_at
swap-down zero [] = unfold swap in refl
swap-down (suc i) [] = unfold swap in refl
swap-down zero (a ∷ []) = unfold swap in refl
swap-down zero (a ∷ b ∷ r) = unfold swap in refl
swap-down (suc i) (a ∷ r) = swap-cons i (suc i) a r ∙ ap (◌∷◌ a) (swap-down i r)

swap-up :
    (i : ℕ) (rows : List ColumnPreferenceRow) → swap (pos (suc i)) (pos i) rows ≡ swap_at i rows
unfolding swap_at
swap-up zero [] = unfold swap in refl
swap-up (suc i) [] = unfold swap in refl
swap-up zero (a ∷ []) = unfold swap in refl
swap-up zero (a ∷ b ∷ r) = unfold swap in refl
swap-up (suc i) (a ∷ r) = swap-cons (suc i) i a r ∙ ap (◌∷◌ a) (swap-up i r)

swap_at-end {ℓ} : {A : Type ℓ} (i : ℕ) (xs : List A) → length xs ≤ suc i → swap_at i xs ≡ xs
unfolding swap_at
swap_at-end zero [] h = refl
swap_at-end (suc i) [] h = refl
swap_at-end zero (a ∷ []) h = refl
swap_at-end zero (a ∷ b ∷ r) h = absurd (omega arith)
swap_at-end (suc i) (a ∷ r) h = ap (◌∷◌ a) (swap_at-end i r (omega arith))

-- A move exchanges the row at the index with its neighbour in the direction, and changes nothing
-- at either end of the list or at an index outside it.
move_row-eq-moved :
    (rows : List ColumnPreferenceRow) (index : ℤ) (direction : Direction)
    → move_row rows index direction ≡ moved rows index direction
unfolding move_row moved
move_row-eq-moved rows (pos zero) up = ground arith
move_row-eq-moved rows (pos (suc i)) up = ground (arith, swap-up i rows, swap_at-end i rows)
move_row-eq-moved rows (pos i) down = ground (arith, swap-down i rows, swap_at-end i rows)
move_row-eq-moved rows (negsuc n) up = refl
move_row-eq-moved rows (negsuc n) down = refl

swap_at-swap_at {ℓ} : {A : Type ℓ} (i : ℕ) (xs : List A) → swap_at i (swap_at i xs) ≡ xs
unfolding swap_at
swap_at-swap_at zero [] = refl
swap_at-swap_at (suc i) [] = refl
swap_at-swap_at zero (a ∷ []) = refl
swap_at-swap_at zero (a ∷ b ∷ r) = refl
swap_at-swap_at (suc i) (a ∷ r) = ap (◌∷◌ a) (swap_at-swap_at i r)

-- Moving a row down and moving the row below up again restores the list, for every index.
pub move_row-move_row :
    (rows : List ColumnPreferenceRow) (index : ℤ)
    → move_row (move_row rows index down) (suc_ℤ index) up ≡ rows
unfolding moved
move_row-move_row rows (pos i) = rw (move_row-eq-moved, move_row-eq-moved) (swap_at-swap_at i rows)
move_row-move_row rows (negsuc zero) = simp move_row-eq-moved refl
move_row-move_row rows (negsuc (suc n)) = simp move_row-eq-moved refl

-- A property that every exchange of neighbours keeps is kept by every move.
move_row-keeps {ℓ} :
    (P : List ColumnPreferenceRow → Type ℓ)
    → ((i : ℕ) (rows : List ColumnPreferenceRow) → P rows → P (swap_at i rows))
    → (rows : List ColumnPreferenceRow) (index : ℤ) (direction : Direction) → P rows
    → P (move_row rows index direction)
unfolding moved
move_row-keeps P keep rows (pos zero) up p = rw move_row-eq-moved p
move_row-keeps P keep rows (pos (suc i)) up p = rw move_row-eq-moved (keep i rows p)
move_row-keeps P keep rows (pos i) down p = rw move_row-eq-moved (keep i rows p)
move_row-keeps P keep rows (negsuc n) up p = rw move_row-eq-moved p
move_row-keeps P keep rows (negsuc n) down p = rw move_row-eq-moved p

names_of-swap_at :
    (i : ℕ) (rows : List ColumnPreferenceRow)
    → names_of (fields_of (swap_at i rows)) ≡ swap_at i (names_of (fields_of rows))
unfolding swap_at
names_of-swap_at zero [] = refl
names_of-swap_at (suc i) [] = refl
names_of-swap_at zero (a ∷ []) = refl
names_of-swap_at zero (a ∷ b ∷ r) = refl
names_of-swap_at (suc i) (a ∷ r) = ap (◌∷◌ a.field.name) (names_of-swap_at i r)

has-swap_at : (i : ℕ) (ns : List String) (n : String) → has (swap_at i ns) n ≡ has ns n
unfolding swap_at
has-swap_at zero [] n = refl
has-swap_at (suc i) [] n = refl
has-swap_at zero (a ∷ []) n = refl
has-swap_at zero (a ∷ b ∷ r) n = ground arith
has-swap_at (suc i) (a ∷ r) n = ground (arith, has-swap_at i r n)

Distinct-swap_at : (i : ℕ) (ns : List String) → Distinct ns → Distinct (swap_at i ns)
unfolding swap_at
Distinct-swap_at zero [] d = tt
Distinct-swap_at (suc i) [] d = tt
Distinct-swap_at zero (a ∷ []) d = d
Distinct-swap_at zero (a ∷ b ∷ r) (p, (q, d)) =
    (ground (arith, eq_iff a b, eq_iff b a), (ground arith, d))
Distinct-swap_at (suc i) (a ∷ r) (p, d) = (rw (has-swap_at i r a) p, Distinct-swap_at i r d)

All-swap_at {ℓ κ} :
    {A : Type ℓ} (P : A → Type κ) (i : ℕ) (xs : List A) → All P xs → All P (swap_at i xs)
unfolding swap_at
All-swap_at P zero [] h = tt
All-swap_at P (suc i) [] h = tt
All-swap_at P zero (a ∷ []) h = h
All-swap_at P zero (a ∷ b ∷ r) (p, (q, h)) = (q, (p, h))
All-swap_at P (suc i) (a ∷ r) (p, h) = (p, All-swap_at P i r h)

count-swap_at :
    (i : ℕ) (rows : List ColumnPreferenceRow)
    → length (filter visible_of (swap_at i rows)) ≡ length (filter visible_of rows)
unfolding swap_at
count-swap_at zero [] = refl
count-swap_at (suc i) [] = refl
count-swap_at zero (a ∷ []) = refl
count-swap_at zero (a ∷ b ∷ r) = ground arith
count-swap_at (suc i) (a ∷ r) = ground (arith, count-swap_at i r)

module _ {fields : List FieldConfig} {locked : List String} where
  pub move_row-IsRows :
      (rows : List ColumnPreferenceRow) (index : ℤ) (direction : Direction)
      → IsRows fields locked rows
      → IsRows fields locked (move_row rows index direction)
  move_row-IsRows = move_row-keeps (IsRows fields locked) λ i rows r. record {
    distinct =
        rw (names_of-swap_at i rows) (Distinct-swap_at i (names_of (fields_of rows)) r.distinct);
    served = λ n.
        rw (names_of-swap_at i rows) (has-swap_at i (names_of (fields_of rows)) n ∙ r.served n);
    each = All-swap_at (IsRow fields locked) i rows r.each;
  }

pub count-move_row :
    (rows : List ColumnPreferenceRow) (index : ℤ) (direction : Direction)
    → length (filter visible_of (move_row rows index direction)) ≡ length (filter visible_of rows)
count-move_row rows index direction =
    move_row-keeps (λ l. length (filter visible_of l) ≡ length (filter visible_of rows))
      (λ i l e. count-swap_at i l ∙ e) rows index direction refl
