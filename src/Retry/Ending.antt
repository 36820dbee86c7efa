-- ===== src/Retry/Ending.antt =====
-- Where the retry loop ends: at its bound, or where the power in the delay overflows.
use native.Mathlib.Decide.{dec_lt}
use rabbitmq_pika_adapter.Prelude.{
  ℕ, zero, suc, ◌+◌, ◌≤◌, ◌<◌, ◌≡◌, ◌≢◌, Bool, Option, none, some, arith, Bool-cases, inl, inr, ◌⊎◌,
}
use rabbitmq_pika_adapter.Outcome.{Exception, Outcome}
use rabbitmq_pika_adapter.Retry.Floats.{Seconds}
use rabbitmq_pika_adapter.Retry.{
  RetryPolicy, delay_for_attempt, asked_to_stop, sync_loop, sync_retry,
}
use rabbitmq_pika_adapter.Retry.Loop.{settle-ne-none, sync_retry-ne-none}
use rabbitmq_pika_adapter.Retry.Overflow.{delay_overflows}

-- `n` bounds the rounds: it is `max_attempts`, or without one the power overflows there.
abbrev pub EndsWithin : (s : Seconds) → RetryPolicy s → ℕ → Type 0
EndsWithin s p n =
    (p.max_attempts ≡ some n) ⊎ ((p.max_attempts ≡ none) × (s.pow p.multiplier n ≡ none))

module _ (s : Seconds) {W A : Type 0} (p : RetryPolicy s) (uniform : ℕ → s.T → s.T → s.T)
    (sleep : s.T → W → W) (func : W → Outcome A × W) (stop : Option (W → Bool)) where
  before_overflow :
      (k : ℕ)
      → p.max_attempts ≡ none
      → s.pow p.multiplier k ≡ none
      → (attempt : ℕ) (d : s.T) → attempt ≤ suc k
      → delay_for_attempt s p (attempt + 1) (uniform attempt) ≡ some d
      → attempt < suc k
  before_overflow k endless huge attempt d bound delay = elim (dec_lt attempt (suc k)) [
    | yes early ↦ early
    | no late ↦
        let over = delay_overflows s p uniform sleep func k endless huge attempt (omega arith) in
        absurd (cc)
  ]

  sync_loop-ends :
      (k : ℕ)
      → p.max_attempts ≡ none
      → s.pow p.multiplier k ≡ none
      → (fuel attempt : ℕ) (last : Option Exception) (w : W) → attempt ≤ suc k
      → suc k < attempt + fuel
      → sync_loop s p uniform sleep func stop fuel attempt last w ≢ none
  unfolding sync_loop
  sync_loop-ends k endless huge zero attempt last w bound enough = absurd (omega arith)
  sync_loop-ends k endless huge (suc fuel) attempt last w bound enough =
      elim (Bool-cases (asked_to_stop s stop w)) [
        | inl stopped ↦ rw stopped (λ e. cc)
        | inr going ↦ rw going (
            let (r, w1) = func w in
            settle-ne-none s p uniform sleep func attempt r w1 _ λ more e d delay.
              let early : attempt < suc k = before_overflow k endless huge attempt d bound delay in
              sync_loop-ends k endless huge fuel (attempt + 1) (some e) (sleep d w1) (omega arith)
                (omega arith))
      ]

  pub sync_retry_ends :
      (n : ℕ) (w : W) → EndsWithin s p n → sync_retry s p uniform sleep func stop (suc n) w ≢ none
  unfolding sync_retry
  sync_retry_ends n w (inl bounded) =
      sync_retry-ne-none s p uniform sleep func stop n (suc n) w bounded (omega arith) (omega arith)
  sync_retry_ends n w (inr (endless, huge)) =
      sync_loop-ends n endless huge (suc n) 1 none w (omega arith) (omega arith)
