-- ===== src/Base/Dedup.antt =====
-- The first occurrences of a list of names, and filters over them.
use testnexa.Base.Tests.{Bool-cases}
use testnexa.Base.Lists.{filter}
use testnexa.Base.Names.{has, Distinct}
use Prim.Native.String.{String}
use mathlib.Core.Path.{◌≡◌, refl, ap, ◌∙◌}
use mathlib.Core.Bool.{Bool, true, false, not, ◌&&◌}
use mathlib.Core.Logic.{inl, inr}
use mathlib.Core.List.{List, [], ◌∷◌}
use native.Mathlib.Omega.{arith}
use text.Mathlib.Text.{◌==◌}
use text.Mathlib.TextEquality.{eq_iff}

abbrev pub without : String → List String → List String
without n = filter (λ m. not (n == m))

abbrev pub dedup : List String → List String
dedup [] = []
dedup (n ∷ ns) = n ∷ without n (dedup ns)

-- Two tests in a row are one.
pub filter-without :
    (n : String) (p q : String → Bool) (ns : List String)
    → ((m : String) → q m ≡ (not (n == m) && p m))
    → filter p (without n ns) ≡ filter q ns
filter-without n p q [] h = refl
filter-without n p q (m ∷ ns) h = ground (arith, h m, filter-without n p q ns h)

pub has-without :
    (n : String) (ns : List String) (m : String) → has (without n ns) m ≡ (not (n == m) && has ns m)
has-without n [] m = ground arith
has-without n (x ∷ ns) m = ground (arith, eq_iff n m, eq_iff x m, eq_iff n x, has-without n ns m)

pub has-dedup : (ns : List String) (m : String) → has (dedup ns) m ≡ has ns m
has-dedup [] m = refl
has-dedup (n ∷ ns) m = ground (arith, has-without n (dedup ns) m, has-dedup ns m, eq_iff n m)

pub has-filter :
    (p : String → Bool) (ns : List String) (m : String) → has (filter p ns) m ≡ (p m && has ns m)
has-filter p [] m = ground arith
has-filter p (n ∷ ns) m = ground (arith, has-filter p ns m, eq_iff n m)

pub Distinct-filter : (p : String → Bool) (ns : List String) → Distinct ns → Distinct (filter p ns)
Distinct-filter p [] d = tt
Distinct-filter p (n ∷ ns) (fresh, d) = elim (Bool-cases (p n)) [
  | inl kept ↦ rw kept (ground (arith, has-filter p ns n), Distinct-filter p ns d)
  | inr dropped ↦ rw dropped (Distinct-filter p ns d)
]

pub Distinct-dedup : (ns : List String) → Distinct (dedup ns)
Distinct-dedup [] = tt
Distinct-dedup (n ∷ ns) = (
  ground (arith, has-without n (dedup ns) n, eq_iff n n),
  Distinct-filter _ (dedup ns) (Distinct-dedup ns),
)

without-fresh : (n : String) (ns : List String) → has ns n ≡ false → without n ns ≡ ns
without-fresh n [] h = refl
without-fresh n (m ∷ ns) h = ground (arith, eq_iff n m, eq_iff m n, without-fresh n ns)

pub dedup_of_Distinct : (ns : List String) → Distinct ns → dedup ns ≡ ns
dedup_of_Distinct [] d = refl
dedup_of_Distinct (n ∷ ns) (fresh, d) =
    ap (◌∷◌ n) (ap (without n) (dedup_of_Distinct ns d) ∙ without-fresh n ns fresh)

-- Tests that agree on the names of a list filter it alike.
pub filter_congr_on :
    (p q : String → Bool) (ns : List String)
    → ((m : String) → has ns m ≡ true → p m ≡ q m)
    → filter p ns ≡ filter q ns
filter_congr_on p q [] h = refl
filter_congr_on p q (n ∷ ns) h =
    ground
      (arith, h n (ground (arith, eq_iff n n)), filter_congr_on p q ns (λ m k. h m (ground arith)))

pub filter_all_false :
    (p : String → Bool) (ns : List String)
    → ((m : String) → has ns m ≡ true → p m ≡ false)
    → filter p ns ≡ []
filter_all_false p [] h = refl
filter_all_false p (n ∷ ns) h =
    ground
      (arith, h n (ground (arith, eq_iff n n)), filter_all_false p ns (λ m k. h m (ground arith)))

pub filter_all_true :
    (p : String → Bool) (ns : List String)
    → ((m : String) → has ns m ≡ true → p m ≡ true)
    → filter p ns ≡ ns
filter_all_true p [] h = refl
filter_all_true p (n ∷ ns) h =
    ground
      (arith, h n (ground (arith, eq_iff n n)), filter_all_true p ns (λ m k. h m (ground arith)))
