-- ===== src/Tests/Clock.antt =====
-- Seconds as whole numbers: an instance of the float arithmetic that meets its laws. What would be
-- below nought is nought, and powers from the fifth on overflow.
use rabbitmq_pika_adapter.Prelude.{
  ℕ, zero, suc, ◌+◌, ◌*◌, ◌≤◌, ◌≡◌, false, Option, none, some, arith, ltb, if◌then◌else◌,
}
use rabbitmq_pika_adapter.Retry.Floats.{Seconds, Laws, IsUniform}
use rabbitmq_pika_adapter.Retry.{RetryPolicy}

unfoldable pub power : ℕ → ℕ → ℕ
power a zero = 1
power a (suc n) = a * power a n

abbrev pub whole_seconds : Seconds
whole_seconds = record {
  T = ℕ;
  nought = 0;
  one = 1;
  ltb = ltb;
  add = λ a b. a + b;
  mul = λ a b. a * b;
  neg = λ a. 0;
  pow = λ a n. if ltb n 5 then some (power a n) else none;
}

mul-le : (a b c : ℕ) → b ≤ c → a * b ≤ a * c
mul-le a b c h = grind arith

mul_mono : (a b c : ℕ) → ltb c b ≡ false → ltb (a * c) (a * b) ≡ false
mul_mono a b c h = ground (arith, mul-le a b c)

le-mul : (p a : ℕ) → 1 ≤ a → p ≤ a * p
le-mul p a h = grind arith

power_mono :
    (a n p q : ℕ)
    → ltb a 1 ≡ false
    → (if ltb n 5 then some (power a n) else none) ≡ some p
    → (if ltb (suc n) 5 then some (power a (suc n)) else none) ≡ some q
    → ltb q p ≡ false
unfolding power
power_mono a n p q h e e' = ground (arith, le-mul (power a n) a)

pub whole_laws : Laws whole_seconds
whole_laws = record {
  le_refl = λ a. ground arith;
  le_of_lt = λ a b h. ground arith;
  le_trans = λ a b c h k. ground arith;
  add_mono = λ a b c d h k. ground arith;
  add_nonneg = λ a b h k. ground arith;
  neg-le = λ a h. ground arith;
  mul_nonneg = λ a b h k. ground arith;
  mul_mono = λ a b c h k. mul_mono a b c k;
  pow_nonneg = λ a p n h e. ground arith;
  pow_mono = λ a p q n h e e'. power_mono a n p q h e e';
}

abbrev pub lowest : ℕ → ℕ → ℕ
lowest low high = low

pub lowest-IsUniform : IsUniform whole_seconds lowest
lowest-IsUniform low high h = ground arith

abbrev pub policy : Option ℕ → RetryPolicy whole_seconds
policy max_attempts = record {
  max_attempts = max_attempts;
  base_delay = 1;
  max_delay = 30;
  multiplier = 2;
  jitter = 0;
}
