-- ===== src/Listener/Failures.antt =====
-- What becomes of a message whose callback fails.
use rabbitmq_pika_adapter.Prelude.{
  ℕ, ◌+◌, ◌≡◌, refl, String, true, false, Option, none, some, ◌∷◌, arith, sum_map, inl, inr,
}
use rabbitmq_pika_adapter.Prelude.Int.{ℤ}
use rabbitmq_pika_adapter.Outcome.{Outcome-cases, Exception, ok, raised}
use rabbitmq_pika_adapter.Stats.{received, nacked}
use rabbitmq_pika_adapter.DeadLettering.{DeadLetteringConfig}
use rabbitmq_pika_adapter.Listener.Message.{Properties, copy_properties, Delivery, fail_job}
use rabbitmq_pika_adapter.Listener.World.{
  user_callback, basic_properties, basic_ack, basic_nack, basic_publish, submit_task, Event, did,
  failed, counted, Log, Env, Settings, Listener, call,
}
use rabbitmq_pika_adapter.Listener.{
  internal_wrapper, handle_fail, run_job, poison_queue, offload_wrapper, submit,
  dead_letter_properties,
}

abbrev pub counts_received : Event → ℕ
counts_received (counted received) = 1
counts_received _ = 0

abbrev pub settled : Event → ℕ
settled (did (basic_ack _)) = 1
settled (did (basic_nack _ _)) = 1
settled _ = 0

module _ (env : Env) (settings : Settings) where
  -- Without offloading a failed message always goes back to the queue it came from, whatever the
  -- destination says about dead-lettering, and the failure of the handler is not counted.
  pub internal_wrapper-requeues :
      (d : Delivery) (tag : ℕ) (s : Listener) {e : Exception}
      → settings.auto_ack ≡ false
      → s.stop_me ≡ false
      → d.delivery_tag ≡ some tag
      → env.answer (counted received ∷ s.log) (user_callback d) ≡ raised e
      → env.answer (failed (user_callback d) ∷ counted received ∷ s.log) (basic_nack tag true)
        ≡ ok tt
      → (internal_wrapper env settings d s).1.log
        ≡ counted nacked
          ∷ did (basic_nack tag true)
          ∷ failed (user_callback d)
          ∷ counted received
          ∷ s.log
  unfolding internal_wrapper
  internal_wrapper-requeues d tag s manual going tagged fails nacks = ground arith

  -- When a task cannot be submitted, the message is handled directly and is counted as received
  -- twice.
  pub fallback-counts_twice :
      (d : Delivery) (s : Listener)
      → settings.offload ≡ true
      → s.stop_me ≡ false
      → ((log : Log) → (e : Exception) × (env.answer log (submit_task d) ≡ raised e))
      → sum_map counts_received (offload_wrapper env settings d s).1.log
        ≡ sum_map counts_received s.log + 2
  unfolding offload_wrapper submit internal_wrapper call
  fallback-counts_twice d s on going shut =
      let (e, refused) = shut (counted received ∷ s.log) in ground (arith, refused)

  dead_letter_properties-returns :
      (o : Option Properties) (s : Listener)
      → (p : Option Properties) × ((dead_letter_properties env settings o s).0 ≡ ok p)
        × (sum_map settled (dead_letter_properties env settings o s).1.log ≡ sum_map settled s.log)
  unfolding dead_letter_properties call
  dead_letter_properties-returns none s = (none, refl, refl)
  dead_letter_properties-returns (some p) s =
      elim (Outcome-cases (env.answer s.log (basic_properties (copy_properties p)))) [
        | inl ends ↦ (some (copy_properties p), ground arith, ground arith)
        | inr (e, raises) ↦ (some p, ground arith, ground arith)
      ]

  -- When the publish to the dead-letter queue raises, the failed message is settled in no way: it is
  -- neither acknowledged nor rejected.
  pub failed_dead_letter-unsettled :
      (tag : ℕ) (d : Delivery) (cfg : DeadLetteringConfig) (attempt : ℤ) (s : Listener) {q : String}
      → poison_queue cfg attempt ≡ some q
      → ((log : Log) (p : Option Properties)
          → (e : Exception) × (env.answer log (basic_publish "" q d.body p) ≡ raised e))
      → sum_map settled (run_job env settings (fail_job tag d cfg attempt) s).1.log
        ≡ sum_map settled s.log
  unfolding run_job handle_fail call
  failed_dead_letter-unsettled tag d cfg attempt s poison refused =
      let (p, returned, kept) = dead_letter_properties-returns d.properties s in
      let (e, refusal) = refused (dead_letter_properties env settings d.properties s).1.log p in
      ground arith
