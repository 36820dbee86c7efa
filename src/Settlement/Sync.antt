-- ===== src/Settlement/Sync.antt =====
-- The jobs of the sync listener carry out the verdict.
use rabbitmq_pika_adapter.Prelude.{
  ℕ, ◌≡◌, refl, String, Bool, not, Option, none, some, List, [], ◌∷◌, ◌++◌, text_eq, arith, inl,
  inr,
}
use rabbitmq_pika_adapter.Outcome.{Outcome, ok, raised, Outcome-cases}
use rabbitmq_pika_adapter.DeadLettering.{
  DeadLetteringConfig, dead_letter, resolve_dead_lettering_config, retry_attempt_from_headers,
}
use rabbitmq_pika_adapter.Listener.Message.{Properties, copy_properties, Delivery}
use rabbitmq_pika_adapter.Listener.World.{
  basic_ack, basic_nack, basic_publish, basic_properties, did, Log, Env, Settings, Listener, call,
  count,
}
use rabbitmq_pika_adapter.Listener.{
  poison_queue, headers_of, run_job, job_for, handle_fail, after_poison, acknowledge, reject,
  dead_letter_properties,
}
use rabbitmq_pika_adapter.Settlement.{
  Effect, acked, nacked, published, verdict, failed_verdict, effects,
}

abbrev pub sync_effects : Log → List Effect
sync_effects [] = []
sync_effects (did (basic_ack tag) ∷ log) = acked tag ∷ sync_effects log
sync_effects (did (basic_nack tag requeue) ∷ log) = nacked tag requeue ∷ sync_effects log
sync_effects (did (basic_publish _ queue body _) ∷ log) = published queue body ∷ sync_effects log
sync_effects (_ ∷ log) = sync_effects log

-- The broker takes acknowledgements, rejections and publishes.
pub record IsServing (env : Env) : Type 0 where
  pub acks : (log : Log) (tag : ℕ) → env.answer log (basic_ack tag) ≡ ok tt
  pub nacks :
      (log : Log) (tag : ℕ) (requeue : Bool) → env.answer log (basic_nack tag requeue) ≡ ok tt
  pub publishes :
      (log : Log) (queue : String) (body : List ℕ) (p : Option Properties)
      → env.answer log (basic_publish "" queue body p) ≡ ok tt

module _ (env : Env) (settings : Settings) (serving : IsServing env) where
  acknowledge_effects :
      (tag : ℕ) (s : Listener)
      → let (r, s') = acknowledge env settings tag s in
        (r ≡ ok tt) × (sync_effects s'.log ≡ acked tag ∷ sync_effects s.log)
  unfolding acknowledge call count
  acknowledge_effects tag s = ground (arith, serving.acks s.log tag)

  properties_effects :
      (o : Option Properties) (s : Listener)
      → (p : Option Properties) × ((dead_letter_properties env settings o s).0 ≡ ok p)
        × (sync_effects (dead_letter_properties env settings o s).1.log ≡ sync_effects s.log)
  unfolding dead_letter_properties call
  properties_effects none s = (none, refl, refl)
  properties_effects (some p) s =
      elim (Outcome-cases (env.answer s.log (basic_properties (copy_properties p)))) [
        | inl ends ↦ (some (copy_properties p), ground arith, ground arith)
        | inr (e, raises) ↦ (some p, ground arith, ground arith)
      ]

  publish_effects :
      (queue : String) (body : List ℕ) (p : Option Properties) (s : Listener)
      → let (r, s') = call env (basic_publish "" queue body p) s in
        (r ≡ ok tt) × (sync_effects s'.log ≡ published queue body ∷ sync_effects s.log)
  unfolding call
  publish_effects queue body p s = ground (arith, serving.publishes s.log queue body p)

  after_poison-effects :
      (o : Option String) (tag : ℕ) (d : Delivery) (cfg : DeadLetteringConfig) (s : Listener)
      → let (r, s') = after_poison env settings o tag d cfg s in
        (r ≡ ok tt)
        × (sync_effects s'.log ≡ effects (failed_verdict o cfg) tag d.body ++ sync_effects s.log)
  unfolding reject call count
  after_poison-effects none tag d cfg s =
      ground (arith, serving.nacks s.log tag (not (text_eq cfg.on_error dead_letter)))
  after_poison-effects (some queue) tag d cfg s =
      let (p, returned, same) = properties_effects d.properties s in
      let s1 = (dead_letter_properties env settings d.properties s).1 in
      let s2 = (call env (basic_publish "" queue d.body p) s1).1 in
      ground (arith, publish_effects queue d.body p s1, acknowledge_effects tag s2)

  -- With a broker that takes what it is sent, the job for a message whose callback ended with `r` does
  -- to the broker exactly what the specification says, by the destination and the headers.
  pub job_effects :
      (r : Outcome (Unit {0})) (tag : ℕ) (d : Delivery) (s : Listener)
      → sync_effects (run_job env settings (job_for env settings r tag d) s).1.log
        ≡ effects
            (verdict r
              (resolve_dead_lettering_config settings.render settings.destination)
              (retry_attempt_from_headers (headers_of d.properties)))
            tag
            d.body
          ++ sync_effects s.log
  unfolding run_job job_for handle_fail
  job_effects (ok u) tag d s = ground (arith, acknowledge_effects tag s)
  job_effects (raised e) tag d s =
      let cfg = resolve_dead_lettering_config settings.render settings.destination in
      let attempt = retry_attempt_from_headers (headers_of d.properties) in
      ground (arith, after_poison-effects (poison_queue cfg attempt) tag d cfg s)
