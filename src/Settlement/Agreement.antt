-- ===== src/Settlement/Agreement.antt =====
-- The two listeners treat a message alike.
use rabbitmq_pika_adapter.Prelude.{ℕ, ◌≡◌, refl, sym, ◌∙◌, true, false}
use rabbitmq_pika_adapter.Outcome.{Outcome, Survives}
use rabbitmq_pika_adapter.Listener.{headers_of, run_job, job_for}
use rabbitmq_pika_adapter.Listener as Sync
use rabbitmq_pika_adapter.AsyncListener.{config, after_callback}
use rabbitmq_pika_adapter.AsyncListener as Async
use rabbitmq_pika_adapter.Settlement.Sync.{sync_effects, job_effects}
use rabbitmq_pika_adapter.Settlement.Sync as SyncEffects
use rabbitmq_pika_adapter.Settlement.Async.{async_effects, handler_effects}
use rabbitmq_pika_adapter.Settlement.Async as AsyncEffects

module _ (sync_env : Sync.Env) (sync_settings : Sync.Settings)
    (sync_serving : SyncEffects.IsServing sync_env) (async_env : Async.Env)
    (async_settings : Async.Settings) (async_serving : AsyncEffects.IsServing async_env) where
  -- With brokers that take what they are sent, an offloading sync listener and a manual async one with
  -- the same destination settle a message whose callback ended in the same way, and was not cancelled, in
  -- the same way: the same acknowledgement, rejection or publish to the dead-letter queue, in the same order, as far as
  -- tag, requeue flag, queue and body go. Properties, headers and exchange of the publish are not compared.
  pub listeners_agree :
      (r : Outcome (Unit {0})) (tag : ℕ) (d : Sync.Delivery) (m : Async.Message) (s : Sync.Listener)
      (a : Async.Listener)
      → sync_settings.destination ≡ async_settings.destination
      → sync_settings.render ≡ async_settings.render
      → tag ≡ m.tag
      → d.body ≡ m.body
      → headers_of d.properties ≡ m.headers
      → async_settings.auto_ack ≡ false
      → a.has_channel ≡ true
      → Survives r
      → sync_effects s.log ≡ async_effects a.log
      → sync_effects
          (run_job sync_env sync_settings (job_for sync_env sync_settings r tag d) s).1.log
        ≡ async_effects (after_callback async_env async_settings m r a).1.log
  unfolding config
  listeners_agree r tag d m s a destinations renders tags bodies headers manual there survives
        logs =
      job_effects sync_env sync_settings sync_serving r tag d s
      ∙ rw (destinations, renders, tags, bodies, headers, logs) refl
      ∙ sym (handler_effects async_env async_settings async_serving m r a manual there survives)
