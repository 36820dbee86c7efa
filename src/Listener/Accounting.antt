-- ===== src/Listener/Accounting.antt =====
-- The counters of the listener against the calls that it makes.
use rabbitmq_pika_adapter.Prelude.{ℕ, ◌+◌, ◌≡◌, Bool, [], ◌∷◌, arith}
use rabbitmq_pika_adapter.Outcome.{Outcome}
use rabbitmq_pika_adapter.Stats.{acked, nacked}
use rabbitmq_pika_adapter.Listener.Message.{Delivery, Job, ack_job, fail_job}
use rabbitmq_pika_adapter.Listener.World.{
  basic_ack, basic_nack, Event, did, counted, Log, Env, Settings, Listener, call, count,
}
use rabbitmq_pika_adapter.Listener.Keeps.{settle-keeps, on_done-keeps}
use rabbitmq_pika_adapter.Listener.{
  acknowledge, reject, internal_wrapper, run_job, hand_over, schedule, on_done, submit,
  offload_wrapper,
}

abbrev pub tally : (Event → ℕ) → Log → ℕ
tally weight [] = 0
tally weight (e ∷ log) = weight e + tally weight log

abbrev pub is_ack : Event → ℕ
is_ack (did (basic_ack _)) = 1
is_ack _ = 0

abbrev pub is_nack : Event → ℕ
is_nack (did (basic_nack _ _)) = 1
is_nack _ = 0

abbrev pub counts_acked : Event → ℕ
counts_acked (counted acked) = 1
counts_acked _ = 0

abbrev pub counts_nacked : Event → ℕ
counts_nacked (counted nacked) = 1
counts_nacked _ = 0

-- The two counters agree with the calls that returned.
pub record IsBalanced (log : Log) : Type 0 where
  pub acks : tally counts_acked log ≡ tally is_ack log
  pub nacks : tally counts_nacked log ≡ tally is_nack log

module _ (env : Env) (settings : Settings) where
  acknowledge-IsBalanced :
      (tag : ℕ) (s : Listener)
      → IsBalanced s.log
      → IsBalanced (acknowledge env settings tag s).1.log
  unfolding acknowledge call count
  acknowledge-IsBalanced tag s h = ground arith

  reject-IsBalanced :
      (tag : ℕ) (requeue : Bool) (s : Listener)
      → IsBalanced s.log
      → IsBalanced (reject env settings tag requeue s).1.log
  unfolding reject call count
  reject-IsBalanced tag requeue s h = ground arith

  -- `_internal_wrapper` keeps the counters in step with the calls, however the calls end.
  pub internal_wrapper-IsBalanced :
      (d : Delivery) (s : Listener)
      → IsBalanced s.log
      → IsBalanced (internal_wrapper env settings d s).1.log
  unfolding internal_wrapper
  internal_wrapper-IsBalanced d s h = ground arith

  pub run_job-IsBalanced :
      (job : Job) (s : Listener) → IsBalanced s.log → IsBalanced (run_job env settings job s).1.log
  unfolding run_job
  run_job-IsBalanced (ack_job tag) s h = ground arith
  run_job-IsBalanced (fail_job tag d cfg attempt) s h = ground arith

  schedule-IsBalanced :
      (job : Job) (s : Listener) → IsBalanced s.log → IsBalanced (schedule env settings job s).1.log
  unfolding schedule hand_over call
  schedule-IsBalanced job s h = grind (arith, run_job-IsBalanced)

  -- `_on_done` does too.
  pub on_done-IsBalanced :
      (d : Delivery) (result : Outcome (Unit {0})) (s : Listener)
      → IsBalanced s.log
      → IsBalanced (on_done env settings d result s).1.log
  unfolding count
  on_done-IsBalanced d result s h =
      on_done-keeps env settings (λ t. IsBalanced t.log) (λ t. IsBalanced t.log) d result s h
        (ground arith)
        (λ t k.
          settle-keeps env settings (λ u. IsBalanced u.log) d result t
            (λ tag _. schedule-IsBalanced _ t k) k)

  -- And so does `_offload_wrapper`, its fallback included.
  pub offload_wrapper-IsBalanced :
      (d : Delivery) (s : Listener)
      → IsBalanced s.log
      → IsBalanced (offload_wrapper env settings d s).1.log
  unfolding offload_wrapper submit count call
  offload_wrapper-IsBalanced d s h = grind (arith, internal_wrapper-IsBalanced)
