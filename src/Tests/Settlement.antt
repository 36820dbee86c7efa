-- ===== src/Tests/Settlement.antt =====
-- Both listeners with a message that has failed too often.
use rabbitmq_pika_adapter.Prelude.{◌≡◌, refl, some, [], ◌∷◌, ◌++◌}
use rabbitmq_pika_adapter.Outcome.{external, Outcome, raised, is_cancelled}
use rabbitmq_pika_adapter.DeadLettering.{resolve_dead_lettering_config, retry_attempt_from_headers}
use rabbitmq_pika_adapter.Listener.{run_job, job_for}
use rabbitmq_pika_adapter.Listener.Message.{Properties, Delivery}
use rabbitmq_pika_adapter.AsyncListener.World.{Message, Listener}
use rabbitmq_pika_adapter.AsyncListener.{after_callback, config}
use rabbitmq_pika_adapter.AsyncListener.Tasks.{started}
use rabbitmq_pika_adapter.Settlement.{verdict, effects}
use rabbitmq_pika_adapter.Settlement.Sync.{sync_effects, job_effects}
use rabbitmq_pika_adapter.Settlement.Sync as Sync
use rabbitmq_pika_adapter.Settlement.Async.{async_effects, handler_effects}
use rabbitmq_pika_adapter.Settlement.Async as Async
use rabbitmq_pika_adapter.Settlement.Agreement.{listeners_agree}
use rabbitmq_pika_adapter.Tests.DeadLettering.{render, destination, headers}
use rabbitmq_pika_adapter.Tests.Listener as OfSync
use rabbitmq_pika_adapter.Tests.AsyncListener as OfAsync
use rabbitmq_pika_adapter.Value.{null}

abbrev sync_serving : Sync.IsServing OfSync.working
sync_serving = record {
  acks = λ log tag. refl;
  nacks = λ log tag requeue. refl;
  publishes = λ log queue body p. refl;
}

abbrev async_serving : Async.IsServing OfAsync.working
async_serving = record {
  acks = λ log tag. refl;
  nacks = λ log tag requeue. refl;
  publishes = λ log m queue. refl;
}

abbrev properties : Properties
properties = record {
  content_type = null;
  content_encoding = null;
  headers = some headers;
  delivery_mode = null;
  priority = null;
  correlation_id = null;
  reply_to = null;
  expiration = null;
  message_id = null;
  timestamp = null;
  message_type = null;
  user_id = null;
  app_id = null;
  cluster_id = null;
}

abbrev delivery : Delivery
delivery = record { delivery_tag = some 9; properties = some properties; body = 9 ∷ [] }

abbrev message : Message
message = record { tag = 9; headers = some headers; properties = some properties; body = 9 ∷ [] }

abbrev failure : Outcome (Unit {0})
failure = raised (external 7)

abbrev idle : Listener
idle = (started OfAsync.settings).listener

job_effects_example :
    sync_effects
      (run_job OfSync.working OfSync.manual
        (job_for OfSync.working OfSync.manual failure 9 delivery)
        OfSync.fresh).1.log
    ≡ effects
        (verdict failure
          (resolve_dead_lettering_config render destination)
          (retry_attempt_from_headers (some headers)))
        9
        (9 ∷ [])
      ++ []
job_effects_example =
    job_effects OfSync.working OfSync.manual sync_serving failure 9 delivery OfSync.fresh

handler_effects_example :
    async_effects (after_callback OfAsync.working OfAsync.settings message failure idle).1.log
    ≡ effects
        (verdict failure
          (config OfAsync.working OfAsync.settings)
          (retry_attempt_from_headers (some headers)))
        9
        (9 ∷ [])
      ++ []
unfolding started is_cancelled
handler_effects_example =
    handler_effects OfAsync.working OfAsync.settings async_serving message failure idle refl refl
      refl

listeners_agree_example :
    sync_effects
      (run_job OfSync.working OfSync.manual
        (job_for OfSync.working OfSync.manual failure 9 delivery)
        OfSync.fresh).1.log
    ≡ async_effects (after_callback OfAsync.working OfAsync.settings message failure idle).1.log
unfolding started is_cancelled
listeners_agree_example =
    listeners_agree OfSync.working OfSync.manual sync_serving OfAsync.working OfAsync.settings
      async_serving failure 9 delivery message OfSync.fresh idle refl refl refl refl refl refl refl
      refl refl
