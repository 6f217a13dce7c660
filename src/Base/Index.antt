-- ===== src/Base/Index.antt =====
-- Array positions as the callers pass them: integers, of which a negative one names no element.
use testnexa.Base.Tests.{leb}
use testnexa.Base.Lists.{length, remove_at, modify_at}
use Prim.Native.Nat.{ℕ, zero, suc}
use mathlib.Core.Bool.{Bool, true}
use mathlib.Core.List.{List, [], ◌∷◌, map}
use mathlib.Core.Path.{◌≡◌, refl, ap}

-- `negsuc n` is -(n + 1).
pub data ℤ : Type 0 where
  pos : ℕ → ℤ
  negsuc : ℕ → ℤ

-- `i - 1`
abbrev pub pred_ℤ : ℤ → ℤ
pred_ℤ (pos zero) = negsuc 0
pred_ℤ (pos (suc n)) = pos n
pred_ℤ (negsuc n) = negsuc (suc n)

-- `i + 1`
abbrev pub suc_ℤ : ℤ → ℤ
suc_ℤ (pos n) = pos (suc n)
suc_ℤ (negsuc zero) = pos 0
suc_ℤ (negsuc (suc n)) = negsuc n

module _ {ℓ} {A : Type ℓ} where
  -- `i < 0 || i >= xs.length`
  abbrev pub out_of_range : ℤ → List A → Bool
  out_of_range (pos i) xs = leb (length xs) i
  out_of_range (negsuc n) xs = true

  -- `xs.filter((_, i) => i !== index)`
  abbrev pub without_index : ℤ → List A → List A
  without_index (pos i) xs = remove_at i xs
  without_index (negsuc n) xs = xs

  -- `xs.map((x, i) => (i !== index ? x : f(x)))`
  abbrev pub update_index : ℤ → (A → A) → List A → List A
  update_index (pos i) f xs = modify_at i f xs
  update_index (negsuc n) f xs = xs

module _ {ℓ κ} {A : Type ℓ} {B : Type κ} (f : A → B) where
  pub map-remove_at : (i : ℕ) (xs : List A) → map f (remove_at i xs) ≡ remove_at i (map f xs)
  map-remove_at zero [] = refl
  map-remove_at (suc i) [] = refl
  map-remove_at zero (x ∷ xs) = refl
  map-remove_at (suc i) (x ∷ xs) = ap (◌∷◌ (f x)) (map-remove_at i xs)
