-- ===== src/Tests/Retry.antt =====
-- Runs of the backoff policy and of the retry loops.
use rabbitmq_pika_adapter.Prelude.{
  ℕ, ◌+◌, ◌≤◌, suc, ◌≡◌, ◌≢◌, refl, Option, none, some, arith, ltb, if◌then◌else◌,
}
use rabbitmq_pika_adapter.Outcome.{external, overflow_error, Outcome, ok, raised}
use rabbitmq_pika_adapter.Retry.Floats.{le}
use rabbitmq_pika_adapter.Retry.{RetryPolicy, delay_for_attempt, gives_up, settle, sync_retry}
use rabbitmq_pika_adapter.Retry.Delay.{IsSound, ceiling, delay_for_attempt_bounds}
use Prim.Native.Nat.{max}
use rabbitmq_pika_adapter.Retry.Growth.{delay_for_attempt_mono}
use rabbitmq_pika_adapter.Retry.Rule.{sync_retry-calls_le}
use rabbitmq_pika_adapter.Retry.Ending.{sync_retry_ends}
use rabbitmq_pika_adapter.Prelude.{inr}
use rabbitmq_pika_adapter.Tests.Clock.{
  whole_seconds, whole_laws, lowest, lowest-IsUniform, policy, power,
}

-- The state counts the calls. `flaky` fails until its third call.
abbrev failing : ℕ → Outcome ℕ × ℕ
failing w = (raised (external w), suc w)

abbrev flaky : ℕ → Outcome ℕ × ℕ
flaky w = if ltb w 2 then failing w else (ok w, suc w)

abbrev sleep : ℕ → ℕ → ℕ
sleep d w = w

abbrev draws : ℕ → ℕ → ℕ → ℕ
draws attempt = lowest

abbrev jittery : RetryPolicy whole_seconds
jittery = record {
  max_attempts = some 3;
  base_delay = 1;
  max_delay = 3;
  multiplier = 2;
  jitter = 1;
}

run_flaky : sync_retry whole_seconds (policy (some 5)) draws sleep flaky none 9 0 ≡ some (ok 2, 3)
unfolding sync_retry settle gives_up delay_for_attempt power
run_flaky = refl

run_failing :
    sync_retry whole_seconds (policy (some 2)) draws sleep failing none 9 0
    ≡ some (raised (external 1), 2)
unfolding sync_retry settle gives_up delay_for_attempt power
run_failing = refl

run_endless :
    sync_retry whole_seconds (policy none) draws sleep failing none 9 0
    ≡ some (raised overflow_error, 6)
unfolding sync_retry settle gives_up delay_for_attempt power
run_endless = refl

policy-IsSound : (m : Option ℕ) → IsSound whole_seconds whole_laws (policy m)
policy-IsSound m = ground arith

jittery-IsSound : IsSound whole_seconds whole_laws jittery
jittery-IsSound = ground arith

delay_for_attempt_bounds_example :
    le whole_seconds 0 3 × le whole_seconds 3 (ceiling whole_seconds whole_laws jittery)
unfolding delay_for_attempt power
delay_for_attempt_bounds_example =
    delay_for_attempt_bounds whole_seconds whole_laws jittery 5 lowest jittery-IsSound
      lowest-IsUniform refl

sync_retry_ends_example : sync_retry whole_seconds (policy none) draws sleep failing none 6 0 ≢ none
sync_retry_ends_example =
    sync_retry_ends whole_seconds (policy none) draws sleep failing none 5 0 (inr (refl, refl))

sync_retry-calls_le_example :
    (res : Outcome ℕ × ℕ) × (sync_retry whole_seconds (policy (some 2)) draws sleep failing none 3 0
      ≡ some res)
    × (res.1 ≤ 0 + max 2 1)
sync_retry-calls_le_example =
    sync_retry-calls_le whole_seconds (policy (some 2)) draws sleep failing none (λ w. w) 2 0
      (λ v. refl) (λ d v. refl) refl

delay_for_attempt_mono_example : le whole_seconds 2 4
unfolding delay_for_attempt power
delay_for_attempt_mono_example =
    delay_for_attempt_mono whole_seconds whole_laws (policy none) 3 lowest (policy-IsSound none)
      refl refl refl refl
