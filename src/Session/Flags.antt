-- ===== src/Session/Flags.antt =====
-- What the set-up of channel and consumer leaves.
use rabbitmq_pika_adapter.Prelude.{◌≡◌, refl, ap, ◌∙◌, Bool, true, false, if◌then◌else◌, arith}
use rabbitmq_pika_adapter.Outcome.{assertion_error, Outcome, ok, raised, ◌>>=◌, ◌>>◌}
use rabbitmq_pika_adapter.Outcome.Respects.{Respects, IsPreorder, bind-Respects}
use rabbitmq_pika_adapter.Outcome.Returns.{then-returns}
use rabbitmq_pika_adapter.Session.Keeps.{
  perform-Respects, apply_qos-Respects, declare_queue-Respects, with_queue-Respects,
}
use rabbitmq_pika_adapter.Session.{
  Call, open_channel, Env, Settings, Session, Do, call, perform, attempt, apply_qos, declare_queue,
  with_queue, keep_channel, setup_channel_and_consumer,
}

-- The channel and the connection are as they were.
pub record SameFlags (v u : Session) : Type 0 where
  pub same_channel : u.has_channel ≡ v.has_channel
  pub same_connection : u.has_connection ≡ v.has_connection

same_order : IsPreorder SameFlags
same_order = record { reflexive = λ s. ground arith; transitive = λ p q. ground arith }

module _ (env : Env) (settings : Settings) where
  call-SameFlags : (c : Call) → Respects SameFlags (call env settings c)
  unfolding call
  call-SameFlags c v = ground arith

  pub perform-SameFlags : (c : Call) → Respects SameFlags (perform env settings c)
  perform-SameFlags = perform-Respects env settings SameFlags same_order call-SameFlags

  abbrev opens : Do env settings
  opens = perform env settings open_channel >> keep_channel env settings

  abbrev consumes : Do env settings
  consumes = declare_queue env settings >>= with_queue env settings

  abbrev set_up : Do env settings
  set_up = opens >> apply_qos env settings >> consumes

  opens_ok :
      (v : Session)
      → (opens v).0 ≡ ok tt
      → ((opens v).1.has_channel ≡ true) × ((opens v).1.has_connection ≡ v.has_connection)
  unfolding call
  opens_ok v h = ground arith

  set_up_ok :
      (v : Session)
      → (set_up v).0 ≡ ok tt
      → ((set_up v).1.has_channel ≡ true) × ((set_up v).1.has_connection ≡ v.has_connection)
  set_up_ok v h =
      let ((a, fine), rest) = then-returns (opens >> apply_qos env settings) consumes v h in
      let ((b, opened), rest2) = then-returns opens (apply_qos env settings) v fine in
      let (channel, connection) = opens_ok v opened in
      let after_qos =
        apply_qos-Respects env settings SameFlags same_order call-SameFlags (opens v).1 in
      let v2 = ((opens >> apply_qos env settings) v).1 in
      let consumed =
        bind-Respects SameFlags same_order (declare_queue env settings) (with_queue env settings)
          (declare_queue-Respects env settings SameFlags same_order call-SameFlags)
          (with_queue-Respects env settings SameFlags same_order call-SameFlags) v2 in
      let last = ap (λ (r : Outcome (Unit {0}) × Session). r.1) rest in
      let middle = ap (λ (r : Outcome (Unit {0}) × Session). r.1) rest2 in
      (
        ap (λ (u : Session). u.has_channel) last
            ∙ consumed.same_channel
            ∙ ap (λ (u : Session). u.has_channel) middle
            ∙ after_qos.same_channel
            ∙ channel,
        ap (λ (u : Session). u.has_connection) last
            ∙ consumed.same_connection
            ∙ ap (λ (u : Session). u.has_connection) middle
            ∙ after_qos.same_connection
            ∙ connection,
      )

  abbrev pub BothOpen : Session → Type 0
  BothOpen v = (v.has_channel ≡ true) × (v.has_connection ≡ true)

  connected_ok :
      (b : Bool) (v : Session)
      → v.has_connection ≡ b
      → let r = if b then set_up v else (raised assertion_error, v) in r.0 ≡ ok tt → BothOpen r.1
  connected_ok true v e h = let (channel, connection) = set_up_ok v h in (channel, connection ∙ e)
  connected_ok false v e h = absurd (cc)

  pub setup_ok :
      (v : Session)
      → (setup_channel_and_consumer env settings v).0 ≡ ok tt
      → BothOpen (setup_channel_and_consumer env settings v).1
  unfolding setup_channel_and_consumer
  setup_ok v h = connected_ok v.has_connection v refl h

  pub attempt_ok :
      (c : Call) (v : Session)
      → let (r, u) = attempt env settings c v in (r ≡ ok tt) × SameFlags v u
  unfolding attempt call
  attempt_ok c v = ground arith
