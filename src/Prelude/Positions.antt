-- ===== src/Prelude/Positions.antt =====
-- Lists by position: what is found where, and a change at one position.
use Prim.Native.Nat.{ℕ, zero, suc}
use mathlib.Core.Path.{◌≡◌, refl, ap}
use mathlib.Core.List.{List, [], ◌∷◌, ◌++◌, map}
use mathlib.Core.Option.{some}
use rabbitmq_pika_adapter.Prelude.Lists.{length, get_elem?, All}
use rabbitmq_pika_adapter.Prelude.Tests.{along_some}

module _ {ℓ} {A : Type ℓ} where
  -- The list with `f x` in place of the `x` at a position; out of range nothing changes.
  abbrev pub modify_at : (A → A) → ℕ → List A → List A
  modify_at f n [] = []
  modify_at f zero (x ∷ xs) = f x ∷ xs
  modify_at f (suc n) (x ∷ xs) = x ∷ modify_at f n xs

  pub get_elem?-append :
      (xs ys : List A) (n : ℕ) {x : A} → get_elem? xs n ≡ some x → get_elem? (xs ++ ys) n ≡ some x
  get_elem?-append [] ys n h = cc
  get_elem?-append (x ∷ xs) ys zero h = h
  get_elem?-append (x ∷ xs) ys (suc n) h = get_elem?-append xs ys n h

  pub get_elem?-last : (xs : List A) (y : A) → get_elem? (xs ++ y ∷ []) (length xs) ≡ some y
  get_elem?-last [] y = refl
  get_elem?-last (x ∷ xs) y = get_elem?-last xs y

  pub All-at {κ} :
      (P : A → Type κ) (xs : List A) (n : ℕ) {x : A} → All P xs → get_elem? xs n ≡ some x → P x
  All-at P [] n h e = cc
  All-at P (y ∷ xs) zero h e = along_some P e h.0
  All-at P (y ∷ xs) (suc n) h e = All-at P xs n h.1 e

  -- The changed element needs the property again, which it may get from where it stands.
  pub All-modify_at {κ} :
      (P : A → Type κ) (f : A → A) (n : ℕ) (xs : List A)
      → ((x : A) → get_elem? xs n ≡ some x → P x → P (f x))
      → All P xs
      → All P (modify_at f n xs)
  All-modify_at P f n [] step h = h
  All-modify_at P f zero (x ∷ xs) step h = (step x refl h.0, h.1)
  All-modify_at P f (suc n) (x ∷ xs) step h = (h.0, All-modify_at P f n xs step h.1)

  pub All-map {κ κ'} :
      {P : A → Type κ} {Q : A → Type κ'} (xs : List A) → ((x : A) → P x → Q x) → All P xs → All Q xs
  All-map [] f h = tt
  All-map (x ∷ xs) f h = (f x h.0, All-map xs f h.1)

module _ {ℓ} {A B : Type ℓ} where
  -- A change that keeps `g` of each element keeps the list of them.
  pub map-modify_at :
      (g : A → B) (f : A → A)
      → ((x : A) → g (f x) ≡ g x)
      → (n : ℕ) (xs : List A) → map g (modify_at f n xs) ≡ map g xs
  map-modify_at g f keeps n [] = refl
  map-modify_at g f keeps zero (x ∷ xs) = ap (λ y. y ∷ map g xs) (keeps x)
  map-modify_at g f keeps (suc n) (x ∷ xs) = ap (λ l. g x ∷ l) (map-modify_at g f keeps n xs)

  pub get_elem?-map :
      (g : A → B) (xs : List A) (n : ℕ) {y : B}
      → get_elem? (map g xs) n ≡ some y
      → (x : A) × (get_elem? xs n ≡ some x) × (g x ≡ y)
  get_elem?-map g [] n h = cc
  get_elem?-map g (x ∷ xs) zero h = (x, refl, cc)
  get_elem?-map g (x ∷ xs) (suc n) h = get_elem?-map g xs n h

  pub map-append : (g : A → B) (xs ys : List A) → map g (xs ++ ys) ≡ map g xs ++ map g ys
  map-append g [] ys = refl
  map-append g (x ∷ xs) ys = ap (λ l. g x ∷ l) (map-append g xs ys)

  pub length-map : (g : A → B) (xs : List A) → length (map g xs) ≡ length xs
  length-map g [] = refl
  length-map g (x ∷ xs) = ap (λ n. suc n) (length-map g xs)
