-- ===== src/AsyncSender/Retrying.antt =====
-- `AsyncSender`: what its retried actions keep, and where their outcome comes from.
use rabbitmq_pika_adapter.Prelude.{suc, ◌≡◌, ◌≢◌, refl, Option, none, arith, Option-cases, inl, inr}
use rabbitmq_pika_adapter.Outcome.{Outcome, ok}
use rabbitmq_pika_adapter.Outcome.Respects.{Respects, IsPreorder}
use rabbitmq_pika_adapter.Retry.Floats.{Seconds}
use rabbitmq_pika_adapter.Retry.{async_retry, sync_retry}
use rabbitmq_pika_adapter.Retry.Loop.{async_retry-eq-sync_retry, sync_retry-ne-none}
use rabbitmq_pika_adapter.Retry.Rule.{
  Rule, sync_retry_post, sync_retry-Origin, Origin, last_call, stopped, overflow,
}
use rabbitmq_pika_adapter.AsyncSender.World.{Env, Settings, Sender}
use rabbitmq_pika_adapter.AsyncSender.{Do, policy, retried}

module _ {s : Seconds} (env : Env s) (settings : Settings s) where
  abbrev pub attempts : Do env settings → Sender → Option (Outcome (Unit {0}) × Sender)
  attempts func w =
      async_retry s (policy env settings) env.uniform (λ d v. v) func (suc settings.max_attempts) w

  abbrev no_sleep : s.T → Sender → Sender
  no_sleep d v = v

  same_attempts :
      (func : Do env settings) (w : Sender)
      → attempts func w
        ≡ sync_retry s
            (policy env settings)
            env.uniform
            no_sleep
            func
            none
            (suc settings.max_attempts)
            w
  same_attempts func w =
      async_retry-eq-sync_retry s (policy env settings) env.uniform no_sleep func
        (suc settings.max_attempts) w

  -- The fuel of `retried` does not run out.
  pub attempts-ne-none : (func : Do env settings) (w : Sender) → attempts func w ≢ none
  attempts-ne-none func w = rw (same_attempts func w) (
      sync_retry-ne-none s (policy env settings) env.uniform no_sleep func none
        settings.max_attempts (suc settings.max_attempts) w refl (omega arith) (omega arith))

  -- Where a retried action returns, its last run returns.
  pub retried_ok :
      (func : Do env settings) (w : Sender)
      → (retried env settings func w).0 ≡ ok tt
      → (v : Sender) × (func v ≡ retried env settings func w)
  unfolding retried
  retried_ok func w fine = elim (Option-cases (attempts func w)) [
    | inl out ↦ absurd (attempts-ne-none func w out)
    | inr (res, e) ↦ rw e (
        returned res (rw e at fine) (
          sync_retry-Origin s (policy env settings) env.uniform no_sleep func none
            (suc settings.max_attempts) w (rw (same_attempts func w) at e)))
  ]
    where
      returned :
          (res : Outcome (Unit {0}) × Sender)
          → res.0 ≡ ok tt
          → Origin s (policy env settings) env.uniform no_sleep func none res
          → (v : Sender) × (func v ≡ res)
      returned res fine (last_call v e) = (v, e)
      returned res fine (stopped h) = absurd (cc)
      returned res fine (overflow v p q) = absurd (cc)

  module _ (R : Sender → Sender → Type 0) (order : IsPreorder R) where
    pub retried-Respects :
        (func : Do env settings) → Respects R func → Respects R (retried env settings func)
    unfolding retried
    retried-Respects func p w = elim (Option-cases (attempts func w)) [
      | inl e ↦ rw e (order.reflexive w)
      | inr (res, e) ↦ rw e (
          sync_retry_post s (policy env settings) env.uniform no_sleep func none rule
            (suc settings.max_attempts) w (order.reflexive w) (rw (same_attempts func w) at e))
    ]
      where
        rule :
            Rule s
              (policy env settings)
              env.uniform
              no_sleep
              func
              none
              (λ a v. R w v)
              (λ res. R w res.1)
        rule = record {
          stopped = λ a last v i h. i;
          called = λ a v i. order.transitive i (p v);
          overflowed = λ a v i. order.transitive i (p v);
          again = λ a v d i more. order.transitive i (p v);
        }
