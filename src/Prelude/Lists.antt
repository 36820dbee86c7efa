-- ===== src/Prelude/Lists.antt =====
-- Lists measured by native numbers, under the library's names.
use Prim.Native.Nat.{ℕ, zero, suc, ◌+◌, ◌<◌}
use mathlib.Core.Path.{◌≡◌, refl}
use mathlib.Core.List.{List, [], ◌∷◌, ◌++◌}
use mathlib.Core.Option.{Option, none, some}
use native.Mathlib.Omega.{arith}

module _ {ℓ} {A : Type ℓ} where
  abbrev pub length : List A → ℕ
  length [] = 0
  length (x ∷ xs) = suc (length xs)

  pub length-append : (xs ys : List A) → length (xs ++ ys) ≡ length xs + length ys
  length-append [] ys = omega arith
  length-append (x ∷ xs) ys = omega (arith, length-append xs ys)

  abbrev pub get_elem? : List A → ℕ → Option A
  get_elem? [] i = none
  get_elem? (x ∷ xs) zero = some x
  get_elem? (x ∷ xs) (suc i) = get_elem? xs i

  pub get_elem?-lt : (xs : List A) (i : ℕ) → i < length xs → (x : A) × (get_elem? xs i ≡ some x)
  get_elem?-lt [] i h = elim h [ ]
  get_elem?-lt (x ∷ xs) zero h = (x, refl)
  get_elem?-lt (x ∷ xs) (suc i) h = get_elem?-lt xs i (omega arith)

  abbrev pub sum_map : (A → ℕ) → List A → ℕ
  sum_map weight [] = 0
  sum_map weight (x ∷ xs) = weight x + sum_map weight xs

  pub sum_map-append :
      (weight : A → ℕ) (xs ys : List A)
      → sum_map weight (xs ++ ys) ≡ sum_map weight xs + sum_map weight ys
  sum_map-append weight [] ys = omega arith
  sum_map-append weight (x ∷ xs) ys = omega (arith, sum_map-append weight xs ys)

  pub sum_map-middle :
      (weight : A → ℕ) (xs : List A) (x : A) (ys : List A)
      → sum_map weight (xs ++ x ∷ ys) ≡ weight x + sum_map weight (xs ++ ys)
  sum_map-middle weight xs x ys =
      omega (arith, sum_map-append weight xs (x ∷ ys), sum_map-append weight xs ys)

-- Every element has the property.
abbrev pub All {ℓ κ} : {A : Type ℓ} → (A → Type κ) → List A → Type κ
All P [] = Unit
All P (x ∷ xs) = P x × All P xs

pub All-append {ℓ κ} :
    {A : Type ℓ} (P : A → Type κ) (xs ys : List A) → All P xs → All P ys → All P (xs ++ ys)
All-append P [] ys hx hy = hy
All-append P (x ∷ xs) ys hx hy = (hx.0, All-append P xs ys hx.1 hy)
