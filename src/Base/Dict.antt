-- ===== src/Base/Dict.antt =====
-- `Record<string, string>` as its entries in the order of insertion, the order that
-- `Object.entries` has for keys that are not array indices.
use testnexa.Base.Tests.{if◌then◌else◌}
use testnexa.Base.Names.{has, Distinct}
use Prim.Native.String.{String}
use mathlib.Core.Path.{◌≡◌, refl}
use mathlib.Core.Bool.{false, ◌||◌}
use mathlib.Core.Option.{Option, none, some}
use mathlib.Core.List.{List, [], ◌∷◌, ◌++◌}
use native.Mathlib.Omega.{arith}
use text.Mathlib.Text.{◌==◌}
use text.Mathlib.TextEquality.{eq_iff}

module _ {ℓ} {V : Type ℓ} where
  abbrev pub keys : List (String × V) → List String
  keys [] = []
  keys ((name, value) ∷ rest) = name ∷ keys rest

  -- `record[key] = value`: a key that is there keeps its place.
  abbrev pub insert : String → V → List (String × V) → List (String × V)
  insert key value [] = (key, value) ∷ []
  insert key value ((name, old) ∷ rest) =
      if name == key then (name, value) ∷ rest else (name, old) ∷ insert key value rest

  -- `record[key]`
  abbrev pub lookup : String → List (String × V) → Option V
  lookup key [] = none
  lookup key ((name, value) ∷ rest) = if name == key then some value else lookup key rest

  pub lookup-insert :
      (key other : String) (value : V) (m : List (String × V))
      → lookup other (insert key value m) ≡ (if key == other then some value else lookup other m)
  lookup-insert key other value [] = refl
  lookup-insert key other value ((name, old) ∷ rest) = ground (
    arith,
    lookup-insert key other value rest,
    eq_iff name other,
    eq_iff name key,
    eq_iff key other,
  )

  pub has-keys-insert :
      (k j : String) (v : V) (m : List (String × V))
      → has (keys (insert k v m)) j ≡ (k == j || has (keys m) j)
  has-keys-insert k j v [] = refl
  has-keys-insert k j v ((i, w) ∷ m) =
      ground (arith, eq_iff k j, eq_iff i k, eq_iff i j, has-keys-insert k j v m)

  -- Writing a key that is there keeps the keys; writing a new one adds it at the end.
  pub insert-new :
      (k : String) (v : V) (m : List (String × V))
      → has (keys m) k ≡ false
      → insert k v m ≡ m ++ (k, v) ∷ []
  insert-new k v [] h = refl
  insert-new k v ((i, w) ∷ m) h = ground (arith, insert-new k v m)

  pub insert-Distinct :
      (k : String) (v : V) (m : List (String × V))
      → Distinct (keys m)
      → Distinct (keys (insert k v m))
  insert-Distinct k v [] d = (refl, tt)
  insert-Distinct k v ((i, w) ∷ m) d =
      ground (arith, eq_iff i k, eq_iff k i, has-keys-insert k i v m, insert-Distinct k v m d.1)

  pub lookup_of_not_has :
      (k : String) (m : List (String × V)) → has (keys m) k ≡ false → lookup k m ≡ none
  lookup_of_not_has k [] h = refl
  lookup_of_not_has k ((i, w) ∷ m) h = ground (arith, lookup_of_not_has k m)
