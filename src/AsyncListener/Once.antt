-- ===== src/AsyncListener/Once.antt =====
-- A message whose callback ends is settled.
use rabbitmq_pika_adapter.Prelude.{
  ℕ, ◌+◌, ◌≡◌, refl, String, Bool, true, false, not, Option, none, some, ◌∷◌, arith, sum_map,
  text_eq, ◌⊎◌, inl, inr, Bool-cases, ◌∙◌,
}
use rabbitmq_pika_adapter.Outcome.{
  Exception, assertion_error, Outcome, ok, raised, Outcome-cases, Survives, is_cancelled,
}
use rabbitmq_pika_adapter.DeadLettering.{dead_letter, retry_attempt_from_headers}
use rabbitmq_pika_adapter.Listener.{poison_queue}
use rabbitmq_pika_adapter.AsyncListener.World.{
  Message, OutMessage, user_callback, ack, nack, publish, Event, did, Log, Env, Settings, Listener,
  call, out_message,
}
use rabbitmq_pika_adapter.AsyncListener.Calls.{call-ok, call-raised}
use rabbitmq_pika_adapter.AsyncListener.{
  publish_and_ack, dead_letter_to, poison_or_nack, on_failure, after_callback, run_handler, config,
  reject,
}

-- An acknowledgement or a rejection that the broker has got.
abbrev pub settles : Event → ℕ
settles (did (ack _)) = 1
settles (did (nack _ _)) = 1
settles _ = 0

-- The broker takes acknowledgements and rejections, and nothing is cancelled.
pub record IsServing (env : Env) : Type 0 where
  pub acks : (log : Log) (tag : ℕ) → env.answer log (ack tag) ≡ ok tt
  pub nacks : (log : Log) (tag : ℕ) (requeue : Bool) → env.answer log (nack tag requeue) ≡ ok tt
  pub callbacks : (log : Log) (m : Message) → Survives (env.answer log (user_callback m))
  pub publishes :
      (log : Log) (m : OutMessage) (key : String) → Survives (env.answer log (publish m key))

module _ (env : Env) (settings : Settings) where
  abbrev count : Listener → ℕ
  count s = sum_map settles s.log

  -- It ends, and has settled the message exactly if it says so.
  abbrev Reports : Listener → Outcome Bool × Listener → Type 0
  Reports s (r, s') =
      ((r ≡ ok true) × (count s' ≡ count s + 1)) ⊎ ((r ≡ ok false) × (count s' ≡ count s))

  assertion_survives : is_cancelled assertion_error ≡ false
  unfolding is_cancelled
  assertion_survives = refl

  -- It has settled the message exactly if it returns.
  abbrev Tries : Listener → Outcome Bool × Listener → Type 0
  Tries s (r, s') =
      ((r ≡ ok true) × (count s' ≡ count s + 1))
      ⊎ ((e : Exception) × (r ≡ raised e) × (is_cancelled e ≡ false) × (count s' ≡ count s))

  publish_and_ack-Tries :
      (queue : String) (m : Message) (s : Listener)
      → env.answer (did (publish (out_message m) queue) ∷ s.log) (ack m.tag) ≡ ok tt
      → Survives (env.answer s.log (publish (out_message m) queue))
      → Tries s (publish_and_ack env settings queue m s)
  unfolding publish_and_ack
  publish_and_ack-Tries queue m s acked survives =
      let sending = publish (out_message m) queue in
      elim (Bool-cases s.has_channel) [
        | inr gone ↦ inr (assertion_error, ground arith, assertion_survives, ground arith)
        | inl there ↦ elim (Outcome-cases (env.answer s.log sending)) [
          | inl sent ↦
              let s1 = record s { log = did sending ∷ s.log } in
              inl (
                grind (arith, call-ok env sending s sent, call-ok env (ack m.tag) s1 acked),
                grind (arith, call-ok env sending s sent, call-ok env (ack m.tag) s1 acked),
              )
          | inr (e, fails) ↦ inr (
            e,
            ground (arith, call-raised env sending s fails),
            ground arith,
            ground (arith, call-raised env sending s fails),
          )
        ]
      ]

  dead_letter_run :
      (queue : String) (m : Message) (s : Listener)
      → Tries s (publish_and_ack env settings queue m s)
      → Reports s (dead_letter_to env settings queue m s)
  unfolding dead_letter_to
  dead_letter_run queue m s (inl done) = ground arith
  dead_letter_run queue m s (inr (e, raises, survives, same)) = ground arith

  module _ (serving : IsServing env) where
    reject-settles :
        (m : Message) (s : Listener)
        → let (r, s') = reject env settings m s in (r ≡ ok tt) × (count s' ≡ count s + 1)
    unfolding call
    reject-settles m s = ground (
      arith,
      serving.nacks s.log m.tag (not (text_eq (config env settings).on_error dead_letter)),
    )

    dead_letter_to-Reports :
        (queue : String) (m : Message) (s : Listener)
        → Reports s (dead_letter_to env settings queue m s)
    dead_letter_to-Reports queue m s = dead_letter_run queue m s (
        publish_and_ack-Tries queue m s
          (serving.acks (did (publish (out_message m) queue) ∷ s.log) m.tag)
          (serving.publishes s.log (out_message m) queue))

    poison_or_nack-settles :
        (o : Option String) (m : Message) (s : Listener)
        → let (r, s') = poison_or_nack env settings o m s in (r ≡ ok tt) × (count s' ≡ count s + 1)
    poison_or_nack-settles none m s = reject-settles m s
    poison_or_nack-settles (some queue) m s =
        let (r, s') = dead_letter_to env settings queue m s in
        ground (arith, dead_letter_to-Reports queue m s, reject-settles m s')

    on_failure-settles :
        (m : Message) (s : Listener)
        → settings.auto_ack ≡ false
        → count (on_failure env settings m s).1 ≡ count s + 1
    unfolding on_failure
    on_failure-settles m s manual = ground (
      arith,
      poison_or_nack-settles
          (poison_queue (config env settings) (retry_attempt_from_headers m.headers)) m s,
    )

    after_callback-settles :
        (m : Message) (r : Outcome (Unit {0})) (s : Listener)
        → settings.auto_ack ≡ false
        → Survives r
        → count (after_callback env settings m r s).1 ≡ count s + 1
    unfolding after_callback call
    after_callback-settles m r s manual ended =
        ground (arith, serving.acks s.log m.tag, on_failure-settles m s manual)

  -- A manual listener settles each message exactly once, whether its callback returns or raises and
  -- whether or not the publish to the dead-letter queue succeeds, as long as the broker takes
  -- acknowledgements and rejections and nothing is cancelled.
  pub run_handler-settles :
      (m : Message) (s : Listener)
      → settings.auto_ack ≡ false
      → IsServing env
      → sum_map settles (run_handler env settings m s).log ≡ sum_map settles s.log + 1
  unfolding run_handler call
  run_handler-settles m s manual serving =
      let (r, s1) = call env (user_callback m) s in
      after_callback-settles serving m r s1 manual (ground (arith, serving.callbacks s.log m))
      ∙ ground arith
