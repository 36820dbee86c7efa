-- ===== src/Retry/Floats.antt =====
-- The float arithmetic that the delays need. The source leaves it to the interpreter: here it is a
-- parameter, with the laws of finite floats that the bounds need (rounding is monotone).
use rabbitmq_pika_adapter.Prelude.{ℕ, suc, ◌≡◌, Bool, true, false, Option, some, if◌then◌else◌}

pub record Seconds : Type 1 where
  pub T : Type 0
  pub nought : T
  pub one : T
  -- `a < b`
  pub ltb : T → T → Bool
  pub add : T → T → T
  pub mul : T → T → T
  pub neg : T → T
  -- `x ** n`; `none` where it raises OverflowError
  pub pow : T → ℕ → Option T

abbrev pub le : (s : Seconds) → s.T → s.T → Type 0
le s a b = s.ltb b a ≡ false

-- `min(a, b)`: the first, unless the second is smaller
abbrev pub min_of : (s : Seconds) → s.T → s.T → s.T
min_of s a b = if s.ltb b a then b else a

-- `max(a, b)`
abbrev pub max_of : (s : Seconds) → s.T → s.T → s.T
max_of s a b = if s.ltb a b then b else a

-- Of finite floats.
pub record Laws (s : Seconds) : Type 0 where
  pub le_refl : (a : s.T) → le s a a
  pub le_of_lt : (a b : s.T) → s.ltb a b ≡ true → le s a b
  pub le_trans : (a b c : s.T) → le s a b → le s b c → le s a c
  pub add_mono : (a b c d : s.T) → le s a b → le s c d → le s (s.add a c) (s.add b d)
  pub add_nonneg : (a b : s.T) → le s s.nought a → le s s.nought b → le s s.nought (s.add a b)
  pub neg-le : (a : s.T) → le s s.nought a → le s (s.neg a) a
  pub mul_nonneg : (a b : s.T) → le s s.nought a → le s s.nought b → le s s.nought (s.mul a b)
  pub mul_mono : (a b c : s.T) → le s s.nought a → le s b c → le s (s.mul a b) (s.mul a c)
  pub pow_nonneg : (a p : s.T) (n : ℕ) → le s s.nought a → s.pow a n ≡ some p → le s s.nought p
  -- Powers of a number of at least one grow.
  pub pow_mono :
      (a p q : s.T) (n : ℕ)
      → le s s.one a
      → s.pow a n ≡ some p
      → s.pow a (suc n) ≡ some q
      → le s p q

-- What `random.uniform(low, high)` promises: a number between its arguments.
abbrev pub IsUniform : (s : Seconds) → (s.T → s.T → s.T) → Type 0
IsUniform s uniform =
    (low high : s.T) → le s low high → le s low (uniform low high) × le s (uniform low high) high
