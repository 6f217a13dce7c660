-- ===== src/Base/Names.antt =====
-- Sets of names, as the lists that they are built from (`new Set(xs)`, `set.has(x)`).
use testnexa.Base.Lists.{length, set, remove_at}
use Prim.Native.Nat.{ℕ, zero, suc, ◌≤◌}
use testnexa.Base.Tests.{if◌then◌else◌}
use Prim.Native.String.{String}
use mathlib.Core.Path.{◌≡◌, refl}
use mathlib.Core.Bool.{Bool, true, false, ◌||◌}
use mathlib.Core.List.{List, [], ◌∷◌, ◌++◌}
use native.Mathlib.Omega.{arith}
use text.Mathlib.Text.{◌==◌}
use text.Mathlib.TextEquality.{eq_iff}

-- `new Set(names).has(name)`
abbrev pub has : List String → String → Bool
has [] n = false
has (m ∷ ms) n = m == n || has ms n

-- No name occurs twice.
abbrev pub Distinct : List String → Type 0
Distinct [] = Unit
Distinct (n ∷ ns) = (has ns n ≡ false) × Distinct ns

-- Every name of the first list is one of the second.
abbrev pub Within : List String → List String → Type 0
Within [] ns = Unit
Within (m ∷ ms) ns = (has ns m ≡ true) × Within ms ns

pub has-append : (ms ns : List String) (n : String) → has (ms ++ ns) n ≡ (has ms n || has ns n)
has-append [] ns n = refl
has-append (m ∷ ms) ns n = ground (arith, has-append ms ns n)

pub Distinct-concat :
    (ns : List String) (n : String) → Distinct ns → has ns n ≡ false → Distinct (ns ++ n ∷ [])
Distinct-concat [] n d h = (refl, tt)
Distinct-concat (m ∷ ns) n (fresh, d) h = (
  ground (arith, has-append ns (n ∷ []) m, eq_iff m n, eq_iff n m),
  Distinct-concat ns n d (ground arith),
)

pub Within-cons : (ms ns : List String) (n : String) → Within ms ns → Within ms (n ∷ ns)
Within-cons [] ns n w = tt
Within-cons (m ∷ ms) ns n (h, w) = (ground arith, Within-cons ms ns n w)

pub Within-refl : (ns : List String) → Within ns ns
Within-refl [] = tt
Within-refl (n ∷ ns) = (ground (arith, eq_iff n n), Within-cons ns ns n (Within-refl ns))

pub Within-has :
    (ms ns : List String) (n : String) → Within ms ns → has ms n ≡ true → has ns n ≡ true
Within-has [] ns n w h = cc
Within-has (m ∷ ms) ns n (here, w) h = ground (arith, eq_iff m n, Within-has ms ns n w)

pub has-remove_at :
    (i : ℕ) (ns : List String) (n : String) → has ns n ≡ false → has (remove_at i ns) n ≡ false
has-remove_at zero [] n h = refl
has-remove_at (suc i) [] n h = refl
has-remove_at zero (m ∷ ns) n h = ground arith
has-remove_at (suc i) (m ∷ ns) n h = ground (arith, has-remove_at i ns n)

pub Distinct-remove_at : (i : ℕ) (ns : List String) → Distinct ns → Distinct (remove_at i ns)
Distinct-remove_at zero [] d = tt
Distinct-remove_at (suc i) [] d = tt
Distinct-remove_at zero (m ∷ ns) (fresh, d) = d
Distinct-remove_at (suc i) (m ∷ ns) (fresh, d) =
    (has-remove_at i ns m fresh, Distinct-remove_at i ns d)

pub Within-remove_at : (i : ℕ) (ms ns : List String) → Within ms ns → Within (remove_at i ms) ns
Within-remove_at zero [] ns w = tt
Within-remove_at (suc i) [] ns w = tt
Within-remove_at zero (m ∷ ms) ns (h, w) = w
Within-remove_at (suc i) (m ∷ ms) ns (h, w) = (h, Within-remove_at i ms ns w)

-- Replacing one name by one that no other position holds keeps the names distinct.
has-set-false :
    (i : ℕ) (ns : List String) (n m : String)
    → has ns m ≡ false
    → (n == m) ≡ false
    → has (set ns i n) m ≡ false
has-set-false i [] n m h k = refl
has-set-false zero (x ∷ ns) n m h k = ground arith
has-set-false (suc i) (x ∷ ns) n m h k = ground (arith, has-set-false i ns n m)

pub Distinct-set :
    (i : ℕ) (ns : List String) (n : String)
    → Distinct ns
    → has (remove_at i ns) n ≡ false
    → Distinct (set ns i n)
Distinct-set zero [] n d h = tt
Distinct-set (suc i) [] n d h = tt
Distinct-set zero (m ∷ ns) n (fresh, d) h = (h, d)
Distinct-set (suc i) (m ∷ ns) n (fresh, d) h = (
  has-set-false i ns n m fresh (ground (arith, eq_iff n m, eq_iff m n)),
  Distinct-set i ns n d (ground arith),
)

pub Within-set :
    (i : ℕ) (ms ns : List String) (n : String)
    → Within ms ns
    → has ns n ≡ true
    → Within (set ms i n) ns
Within-set i [] ns n w h = tt
Within-set zero (m ∷ ms) ns n (k, w) h = (h, w)
Within-set (suc i) (m ∷ ms) ns n (k, w) h = (k, Within-set i ms ns n w h)

-- The first occurrence of a name taken out, for the pigeonhole below.
erase : List String → String → List String
erase [] n = []
erase (m ∷ ms) n = if m == n then ms else m ∷ erase ms n

has-erase :
    (ns : List String) (n m : String)
    → has ns m ≡ true
    → (n == m) ≡ false
    → has (erase ns n) m ≡ true
unfolding erase
has-erase [] n m h k = h
has-erase (x ∷ ns) n m h k = ground (arith, eq_iff x n, eq_iff x m, eq_iff n m, has-erase ns n m)

Within-erase :
    (ms ns : List String) (n : String) → Within ms ns → has ms n ≡ false → Within ms (erase ns n)
Within-erase [] ns n w h = tt
Within-erase (m ∷ ms) ns n (k, w) h = (
  has-erase ns n m k (ground (arith, eq_iff n m, eq_iff m n)),
  Within-erase ms ns n w (ground arith),
)

length-erase :
    (ns : List String) (n : String) → has ns n ≡ true → suc (length (erase ns n)) ≡ length ns
unfolding erase
length-erase [] n h = cc
length-erase (m ∷ ns) n h = ground (arith, length-erase ns n)

-- Distinct names out of `ns` are no more than the names of `ns`.
pub length-le_of_Within : (ms ns : List String) → Distinct ms → Within ms ns → length ms ≤ length ns
length-le_of_Within [] ns d w = omega arith
length-le_of_Within (m ∷ ms) ns (fresh, d) (h, w) = omega (
  arith,
  length-erase ns m h,
  length-le_of_Within ms (erase ns m) d (Within-erase ms ns m w fresh),
)

pub Distinct-append :
    (ms ns : List String)
    → Distinct ms
    → Distinct ns
    → ((n : String) → has ms n ≡ true → has ns n ≡ false)
    → Distinct (ms ++ ns)
Distinct-append [] ns d e apart = e
Distinct-append (m ∷ ms) ns (fresh, d) e apart = (
  ground (arith, has-append ms ns m, apart m (ground (arith, eq_iff m m))),
  Distinct-append ms ns d e (λ n h. apart n (ground arith)),
)
