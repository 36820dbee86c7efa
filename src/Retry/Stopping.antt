-- ===== src/Retry/Stopping.antt =====
-- A stop predicate ends the retry loop, whatever its policy.
use native.Mathlib.Decide.{dec_lt}
use rabbitmq_pika_adapter.Prelude.{
  ℕ, zero, suc, ◌+◌, ◌≤◌, ◌<◌, ◌≡◌, ◌≢◌, Bool, true, false, Option, none, some, arith, Bool-cases,
  inl, inr,
}
use rabbitmq_pika_adapter.Outcome.{Exception, Outcome}
use rabbitmq_pika_adapter.Retry.Floats.{Seconds}
use rabbitmq_pika_adapter.Retry.{RetryPolicy, sync_loop, sync_retry}
use rabbitmq_pika_adapter.Retry.Loop.{settle-ne-none}

-- `amount` measures how far the world has come: each call and no sleep takes it further, and from `n` on the predicate holds.
module _ (s : Seconds) {W A : Type 0} (p : RetryPolicy s) (uniform : ℕ → s.T → s.T → s.T)
    (sleep : s.T → W → W) (func : W → Outcome A × W) (stop : W → Bool) (amount : W → ℕ) (n : ℕ)
    (called : (w : W) → amount w < amount (func w).1)
    (slept : (d : s.T) (w : W) → amount w ≤ amount (sleep d w))
    (stopped : (w : W) → n ≤ amount w → stop w ≡ true) where
  not_yet : (w : W) → stop w ≡ false → amount w < n
  not_yet w going = elim (dec_lt (amount w) n) [
    | yes early ↦ early
    | no late ↦ let p = stopped w (omega arith) in absurd (cc)
  ]

  sync_loop-stops :
      (fuel attempt : ℕ) (last : Option Exception) (w : W)
      → 0 < fuel
      → n < amount w + fuel
      → sync_loop s p uniform sleep func (some stop) fuel attempt last w ≢ none
  unfolding sync_loop
  sync_loop-stops zero attempt last w some_fuel enough = absurd (omega arith)
  sync_loop-stops (suc fuel) attempt last w some_fuel enough = elim (Bool-cases (stop w)) [
    | inl asked ↦ rw asked (λ e. cc)
    | inr going ↦ rw going (
        let (r, w1) = func w in
        let further = called w in
        settle-ne-none s p uniform sleep func attempt r w1 _ λ more e d delay.
          sync_loop-stops fuel (attempt + 1) (some e) (sleep d w1) (omega (arith, not_yet w going))
            (omega (arith, enough, further, slept d w1)))
  ]

  -- Whatever the policy, also one without a bound, `sync_retry` ends.
  pub sync_retry-stops : (w : W) → sync_retry s p uniform sleep func (some stop) (suc n) w ≢ none
  unfolding sync_retry
  sync_retry-stops w = sync_loop-stops (suc n) 1 none w (omega arith) (omega arith)
