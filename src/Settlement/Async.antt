-- ===== src/Settlement/Async.antt =====
-- The handler of the async listener carries out the verdict.
use rabbitmq_pika_adapter.Prelude.{
  ℕ, ◌≡◌, String, Bool, true, false, not, Option, none, some, List, [], ◌∷◌, ◌++◌, text_eq, arith,
}
use rabbitmq_pika_adapter.Outcome.{Outcome, ok, raised, Survives}
use rabbitmq_pika_adapter.DeadLettering.{dead_letter, retry_attempt_from_headers}
use rabbitmq_pika_adapter.Listener.{poison_queue}
use rabbitmq_pika_adapter.AsyncListener.World.{
  Message, OutMessage, ack, nack, publish, out_message, did, Log, Env, Settings, Listener, call,
}
use rabbitmq_pika_adapter.AsyncListener.Calls.{call-ok}
use rabbitmq_pika_adapter.AsyncListener.{
  publish_and_ack, dead_letter_to, poison_or_nack, on_failure, after_callback, reject, config,
}
use rabbitmq_pika_adapter.Settlement.{
  Effect, acked, nacked, published, verdict, failed_verdict, effects,
}

abbrev pub async_effects : Log → List Effect
async_effects [] = []
async_effects (did (ack tag) ∷ log) = acked tag ∷ async_effects log
async_effects (did (nack tag requeue) ∷ log) = nacked tag requeue ∷ async_effects log
async_effects (did (publish m queue) ∷ log) = published queue m.body ∷ async_effects log
async_effects (_ ∷ log) = async_effects log

-- The broker takes acknowledgements, rejections and publishes.
pub record IsServing (env : Env) : Type 0 where
  pub acks : (log : Log) (tag : ℕ) → env.answer log (ack tag) ≡ ok tt
  pub nacks : (log : Log) (tag : ℕ) (requeue : Bool) → env.answer log (nack tag requeue) ≡ ok tt
  pub publishes :
      (log : Log) (m : OutMessage) (queue : String) → env.answer log (publish m queue) ≡ ok tt

module _ (env : Env) (settings : Settings) (serving : IsServing env) where
  reject_effects :
      (m : Message) (s : Listener)
      → let (r, s') = reject env settings m s in
        (r ≡ ok tt)
        × (async_effects s'.log
            ≡ nacked m.tag (not (text_eq (config env settings).on_error dead_letter))
              ∷ async_effects s.log)
  unfolding call
  reject_effects m s =
      ground (
        arith,
        serving.nacks s.log m.tag (not (text_eq (config env settings).on_error dead_letter)),
      )

  dead_letter_to_effects :
      (queue : String) (m : Message) (s : Listener)
      → s.has_channel ≡ true
      → let (r, s') = dead_letter_to env settings queue m s in
        (r ≡ ok true)
        × (async_effects s'.log ≡ acked m.tag ∷ published queue m.body ∷ async_effects s.log)
  unfolding dead_letter_to publish_and_ack out_message
  dead_letter_to_effects queue m s there =
      let sending = publish (out_message m) queue in
      let s1 = record s { log = did sending ∷ s.log } in
      grind (
        arith,
        call-ok env sending s (serving.publishes s.log (out_message m) queue),
        call-ok env (ack m.tag) s1 (serving.acks s1.log m.tag),
      )

  poison_or_nack-effects :
      (o : Option String) (m : Message) (s : Listener)
      → s.has_channel ≡ true
      → let (r, s') = poison_or_nack env settings o m s in
        (r ≡ ok tt)
        × (async_effects s'.log
            ≡ effects (failed_verdict o (config env settings)) m.tag m.body ++ async_effects s.log)
  poison_or_nack-effects none m s there = reject_effects m s
  poison_or_nack-effects (some queue) m s there = ground (arith, dead_letter_to_effects queue m s)

  -- With a broker that takes what it is sent, a manual async listener with its channel does to the
  -- broker exactly what the specification says, by the destination and the headers, when the callback
  -- ended with `r` and was not cancelled.
  pub handler_effects :
      (m : Message) (r : Outcome (Unit {0})) (s : Listener)
      → settings.auto_ack ≡ false
      → s.has_channel ≡ true
      → Survives r
      → async_effects (after_callback env settings m r s).1.log
        ≡ effects
            (verdict r (config env settings) (retry_attempt_from_headers m.headers))
            m.tag
            m.body
          ++ async_effects s.log
  unfolding after_callback on_failure
  handler_effects m (ok u) s manual there survives =
      ground (arith, call-ok env (ack m.tag) s (serving.acks s.log m.tag))
  handler_effects m (raised e) s manual there survives =
      let poison = poison_queue (config env settings) (retry_attempt_from_headers m.headers) in
      ground (arith, poison_or_nack-effects poison m s there)
