-- ===== src/TestCycle/Dashboard/Sorted.antt =====
-- pages/workflows/TestCycleDetail/TestCycleDetail.tsx: the order of the table of executions.
use mathlib.Core.List.{Perm}
use mathlib.Core.List.Perm
use testnexa.Base.{
  ◌≡◌, ◌⊎◌, inl, inr, String, Bool, true, false, List, [], ◌∷◌, All, All-imp, if_keeps,
}
use testnexa.TestCycle.{TestExecutionSummary}
use testnexa.TestCycle.Dashboard.{insert_row, sort_executions}

module _ (leq : String → String → Bool)
    (total : (a b : String) → (leq a b ≡ true) ⊎ (leq b a ≡ true))
    (transitive : (a b c : String) → leq a b ≡ true → leq b c ≡ true → leq a c ≡ true) where
  -- `y` is not newer than `x`.
  abbrev pub IsBefore : TestExecutionSummary → TestExecutionSummary → Type 0
  IsBefore x y = leq y.executed_at x.executed_at ≡ true

  abbrev IsNewestFirst : List TestExecutionSummary → Type 0
  IsNewestFirst [] = Unit {0}
  IsNewestFirst (x ∷ xs) = All (IsBefore x) xs × IsNewestFirst xs

  insert_row-Perm :
      (x : TestExecutionSummary) (ys : List TestExecutionSummary)
      → Perm (insert_row leq x ys) (x ∷ ys)
  unfolding insert_row
  insert_row-Perm x [] = Perm.refl (x ∷ [])
  insert_row-Perm x (y ∷ ys) =
      if_keeps (λ l. Perm l (x ∷ y ∷ ys)) (leq y.executed_at x.executed_at) (x ∷ y ∷ ys)
        (y ∷ insert_row leq x ys) (λ _. Perm.refl (x ∷ y ∷ ys))
        (λ _. Perm.trans (Perm.cons y (insert_row-Perm x ys)) (Perm.swap x y ys))

  module _ (P : TestExecutionSummary → Type 0) where
    insert_row-All :
        (x : TestExecutionSummary) (ys : List TestExecutionSummary)
        → P x
        → All P ys
        → All P (insert_row leq x ys)
    unfolding insert_row
    insert_row-All x [] p h = (p, h)
    insert_row-All x (y ∷ ys) p (q, h) =
        if_keeps (All P) (leq y.executed_at x.executed_at) (x ∷ y ∷ ys) (y ∷ insert_row leq x ys)
          (λ _. (p, (q, h))) (λ _. (q, insert_row-All x ys p h))

  newer : (x y : TestExecutionSummary) → leq y.executed_at x.executed_at ≡ false → IsBefore y x
  newer x y h = elim (total x.executed_at y.executed_at) [ inl le ↦ le | inr ge ↦ cc ]

  insert_row-IsNewestFirst :
      (x : TestExecutionSummary) (ys : List TestExecutionSummary)
      → IsNewestFirst ys
      → IsNewestFirst (insert_row leq x ys)
  unfolding insert_row
  insert_row-IsNewestFirst x [] h = (tt, tt)
  insert_row-IsNewestFirst x (y ∷ ys) (first, rest) =
      if_keeps IsNewestFirst (leq y.executed_at x.executed_at) (x ∷ y ∷ ys)
        (y ∷ insert_row leq x ys)
        (λ le. (
          (le, All-imp (λ z h. transitive z.executed_at y.executed_at x.executed_at h le) ys first),
          (first, rest),
        ))
        (λ gt. (
          insert_row-All (IsBefore y) x ys (newer x y gt) first,
          insert_row-IsNewestFirst x ys rest,
        ))

  -- When the order of the texts is total and transitive, the table has the executions of the answer,
  -- each as often as the answer has it, and no execution stands below one that is older.
  sort_executions-IsNewestFirst :
      (xs : List TestExecutionSummary)
      → Perm (sort_executions leq xs) xs × IsNewestFirst (sort_executions leq xs)
  unfolding sort_executions
  sort_executions-IsNewestFirst [] = (Perm.nil, tt)
  sort_executions-IsNewestFirst (x ∷ xs) =
      let (perm, sorted) = sort_executions-IsNewestFirst xs in
      let row = insert_row-Perm x (sort_executions leq xs) in
      (
        Perm.trans row (Perm.cons x perm),
        insert_row-IsNewestFirst x (sort_executions leq xs) sorted,
      )
