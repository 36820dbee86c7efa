-- ===== src/Outcome.antt =====
-- Exceptions as values. A call returns or raises; what it did before a raise stays done, so an
-- action gives the state back beside either outcome.
pub mod Respects
pub mod Returns
use mathlib.Core.Path.{subst}
use rabbitmq_pika_adapter.Prelude.{ℕ, Bool, true, false, ◌≡◌, refl, ◌⊎◌, inl, inr, if◌then◌else◌}

-- Exceptions that the library raises itself, and `external` for those of the code that it calls.
pub data Exception : Type 0 where
  value_error key_error attribute_error runtime_error import_error overflow_error : Exception
  assertion_error cancelled : Exception
  external : ℕ → Exception

pub data Outcome {ℓ} (A : Type ℓ) : Type ℓ where
  ok : A → Outcome A
  raised : Exception → Outcome A

abbrev pub Action {ℓ} : Type ℓ → Type ℓ → Type ℓ
Action S A = S → Outcome A × S

module _ {ℓ} {S A B : Type ℓ} where
  abbrev pub and_then : Outcome A → (A → Action S B) → Action S B
  and_then (ok a) f = f a
  and_then (raised e) f = λ s. (raised e, s)

  infixl 5 ◌>>=◌ ◌>>◌
  abbrev pub ◌>>=◌ : Action S A → (A → Action S B) → Action S B
  m >>= f = λ s. let (r, s') = m s in and_then r f s'

  abbrev pub ◌>>◌ : Action S A → Action S B → Action S B
  m >> n = m >>= λ _. n

module _ {ℓ} {S A : Type ℓ} where
  abbrev pub pure : A → Action S A
  pure a s = (ok a, s)

  abbrev pub raise : Exception → Action S A
  raise e s = (raised e, s)

  abbrev pub handle : Outcome A → (Exception → Action S A) → Action S A
  handle (ok a) f = pure a
  handle (raised e) f = f e

  -- `try: body` / `except Exception as e: handler`
  abbrev pub try_except : Action S A → (Exception → Action S A) → Action S A
  try_except body handler s = let (r, s') = body s in handle r handler s'

-- `try: body` / `except Exception: pass`
abbrev pub suppress : {S : Type 0} → Action S (Unit {0}) → Action S (Unit {0})
suppress body s = (ok tt, (body s).1)

unfoldable pub is_cancelled : Exception → Bool
is_cancelled cancelled = true
is_cancelled _ = false

module _ {ℓ} {S A : Type ℓ} where
  abbrev pub handle_but_cancelled : Outcome A → (Exception → Action S A) → Action S A
  handle_but_cancelled (ok a) f = pure a
  handle_but_cancelled (raised e) f = if is_cancelled e then raise e else f e

  -- In a coroutine: `except Exception` lets a `CancelledError` through.
  abbrev pub async_try : Action S A → (Exception → Action S A) → Action S A
  async_try body handler s = let (r, s') = body s in handle_but_cancelled r handler s'

-- The call was not cancelled.
abbrev pub Survives {ℓ} : {A : Type ℓ} → Outcome A → Type 0
Survives (ok a) = Unit {0}
Survives (raised e) = is_cancelled e ≡ false

pub Outcome-cases : (r : Outcome (Unit {0})) → (r ≡ ok tt) ⊎ ((e : Exception) × (r ≡ raised e))
Outcome-cases (ok _) = inl refl
Outcome-cases (raised e) = inr (e, refl)

pub ok_inj {ℓ} : {A : Type ℓ} {a b : A} → ok a ≡ ok b → a ≡ b
ok_inj e = cc

-- What holds of one result holds of the other.
pub along_ok {ℓ κ} : {A : Type ℓ} (Q : A → Type κ) {a b : A} → ok a ≡ ok b → Q a → Q b
along_ok Q e q = subst Q (ok_inj e) q
