-- ===== src/Retry/Overflow.antt =====
-- Where the power of the multiplier overflows, so does the delay.
use rabbitmq_pika_adapter.Prelude.{ℕ, suc, ◌+◌, ◌-◌, ◌≡◌, none, arith}
use rabbitmq_pika_adapter.Outcome.{Outcome}
use rabbitmq_pika_adapter.Retry.Floats.{Seconds}
use rabbitmq_pika_adapter.Retry.{RetryPolicy, backoff, delay_for_attempt}

module _ (s : Seconds) {W A : Type 0} (p : RetryPolicy s) (uniform : ℕ → s.T → s.T → s.T)
    (sleep : s.T → W → W) (func : W → Outcome A × W) where
  module _ (k : ℕ) (endless : p.max_attempts ≡ none) (huge : s.pow p.multiplier k ≡ none) where
    backoff_overflows : backoff s p (suc k + 1) ≡ none
    unfolding backoff
    backoff_overflows = let exponent : suc k + 1 - 2 ≡ k = omega arith in ground (arith, exponent)

    pub delay_overflows :
        (attempt : ℕ)
        → attempt ≡ suc k
        → delay_for_attempt s p (attempt + 1) (uniform attempt) ≡ none
    unfolding delay_for_attempt
    delay_overflows attempt last = ground (arith, backoff_overflows)
