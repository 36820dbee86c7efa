-- ===== src/Retry.antt =====
-- src/mq_adapters/retry_policy.py: the backoff policy and the two retry loops. Delays are floats:
-- their arithmetic is a parameter.
pub mod Floats
pub mod Delay
pub mod Growth
pub mod Loop
pub mod Rule
pub mod Overflow
pub mod Ending
pub mod Stopping
use rabbitmq_pika_adapter.Prelude.{
  ℕ, zero, suc, ◌+◌, ◌-◌, Bool, true, false, Option, none, some, leb, if◌then◌else◌,
}
use rabbitmq_pika_adapter.Outcome.{Exception, runtime_error, overflow_error, Outcome, ok, raised}
use rabbitmq_pika_adapter.Retry.Floats.{Seconds, min_of, max_of}

-- `none` for None, infinite retries. An attempt number is at least 1, so a `max_attempts` below 0
-- behaves as 0.
pub record RetryPolicy (s : Seconds) : Type 0 where
  pub max_attempts : Option ℕ
  pub base_delay : s.T
  pub max_delay : s.T
  pub multiplier : s.T
  pub jitter : s.T

module _ (s : Seconds) where
  abbrev pub capped : RetryPolicy s → Option s.T → Option s.T
  capped p none = none
  capped p (some power) = some (min_of s p.max_delay (s.mul p.base_delay power))

  -- The delay before jitter. `none` where `multiplier ** exp` raises OverflowError.
  unfoldable pub backoff : RetryPolicy s → ℕ → Option s.T
  backoff p attempt =
      if leb attempt 1 then some s.nought else capped p (s.pow p.multiplier (attempt - 2))

  abbrev pub jittered : RetryPolicy s → (s.T → s.T → s.T) → Option s.T → Option s.T
  jittered p uniform none = none
  jittered p uniform (some delay) =
      if s.ltb s.nought p.jitter
      then some (max_of s s.nought (s.add delay (uniform (s.neg p.jitter) p.jitter)))
      else some delay

  -- `uniform` is what `random.uniform` answers in this call.
  unfoldable pub delay_for_attempt : RetryPolicy s → ℕ → (s.T → s.T → s.T) → Option s.T
  unfolding backoff
  delay_for_attempt p attempt uniform = jittered p uniform (backoff p attempt)

  -- `max_attempts is not None and attempt >= max_attempts`
  unfoldable pub gives_up : RetryPolicy s → ℕ → Bool
  gives_up p attempt = elim p.max_attempts [ none ↦ false | some n ↦ leb n attempt ]

  abbrev pub last_error : Option Exception → Exception
  last_error none = runtime_error
  last_error (some e) = e

  abbrev pub asked_to_stop : {W : Type 0} → Option (W → Bool) → W → Bool
  asked_to_stop none w = false
  asked_to_stop (some stop_predicate) w = stop_predicate w

  -- `W` is what the callables read and write. `uniform` answers `random.uniform` by the number of
  -- the failed attempt. Logging is left out: its errors are swallowed.
  module _ {W A : Type 0} (p : RetryPolicy s) (uniform : ℕ → s.T → s.T → s.T) (sleep : s.T → W → W)
      (func : W → Outcome A × W) where
    abbrev pub Continue : Type 0
    Continue = Exception → s.T → W → Option (Outcome A × W)

    abbrev pub back_off : Option s.T → Exception → W → Continue → Option (Outcome A × W)
    back_off none e w continue = some (raised overflow_error, w)
    back_off (some d) e w continue = continue e d w

    -- What both loops do with the outcome of the call of `func`. `continue` is the next round.
    unfoldable pub settle : ℕ → Outcome A → W → Continue → Option (Outcome A × W)
    settle attempt (ok a) w continue = some (ok a, w)
    settle attempt (raised e) w continue =
        if gives_up p attempt
        then some (raised e, w)
        else back_off (delay_for_attempt p (attempt + 1) (uniform attempt)) e w continue

    -- The loop of `async_retry` on fuel; `none` means that the fuel ran out.
    unfoldable pub async_loop : ℕ → ℕ → W → Option (Outcome A × W)
    async_loop zero attempt w = none
    async_loop (suc fuel) attempt w =
        let (r, w1) = func w in
        settle attempt r w1 (λ e d w'. async_loop fuel (attempt + 1) (sleep d w'))

    unfoldable pub async_retry : ℕ → W → Option (Outcome A × W)
    unfolding async_loop
    async_retry fuel w = async_loop fuel 1 w

    module _ (stop_predicate : Option (W → Bool)) where
      -- The loop of `sync_retry`.
      unfoldable pub sync_loop : ℕ → ℕ → Option Exception → W → Option (Outcome A × W)
      sync_loop zero attempt last_exc w = none
      sync_loop (suc fuel) attempt last_exc w =
          if asked_to_stop stop_predicate w
          then some (raised (last_error last_exc), w)
          else let (r, w1) = func w in
            settle attempt r w1 (λ e d w'. sync_loop fuel (attempt + 1) (some e) (sleep d w'))

      unfoldable pub sync_retry : ℕ → W → Option (Outcome A × W)
      unfolding sync_loop
      sync_retry fuel w = sync_loop fuel 1 none w
