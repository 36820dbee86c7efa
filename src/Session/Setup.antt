-- ===== src/Session/Setup.antt =====
-- When the set-up of the consumer succeeds.
use rabbitmq_pika_adapter.Prelude.{
  ◌≡◌, refl, Bool, true, false, ◌&&◌, ◌∷◌, arith, if◌then◌else◌, if_ind, Bool-cases, inl, inr,
}
use rabbitmq_pika_adapter.Outcome.{Outcome, ok, ◌>>=◌, ◌>>◌}
use rabbitmq_pika_adapter.Value.{Value, truthy}
use rabbitmq_pika_adapter.DeadLettering.{resolve_queue_arguments}
use rabbitmq_pika_adapter.Session.{
  Wrapper, offloading, automatic, direct, Call, open_channel, exchange_declare, queue_bind,
  declare_predefined, of_destination, declare_anonymous, basic_consume, did, Log, Env, Settings,
  Session, call, perform, keep_channel, attempt, apply_qos, declare_queue, consume, with_queue,
  setup_channel_and_consumer,
}

module _ (env : Env) (settings : Settings) where
  -- The wrapper that the settings ask for.
  abbrev pub wrapper : Wrapper
  wrapper = if settings.offload then offloading else if settings.auto_ack then automatic else direct

  consume-log :
      (queue : Value) (s : Session)
      → (consume env settings queue s).0 ≡ ok tt
      → (consume env settings queue s).1.log
        ≡ did (basic_consume queue wrapper settings.auto_ack) ∷ s.log
  unfolding consume call
  consume-log queue s h = ground arith

  attempt-ok : (c : Call) (s : Session) → (attempt env settings c s).0 ≡ ok tt
  unfolding attempt call
  attempt-ok c s = ground arith

  -- The consumer is the last thing that has been set up.
  abbrev pub Consumes : Log → Type 0
  Consumes log =
      (queue : Value) × (before : Log) × (log
        ≡ did (basic_consume queue wrapper settings.auto_ack) ∷ before)

  with_queue-run :
      (queue : Value) (s : Session)
      → (t : Session) × (with_queue env settings queue s ≡ consume env settings queue t)
  with_queue-run queue s =
      let declared =
        exchange_declare (of_destination env settings "exchange_name")
          (of_destination env settings "exchange_type") in
      let bound =
        queue_bind queue (of_destination env settings "exchange_name")
          (of_destination env settings "routing_key") in
      let s1 = (attempt env settings declared s).1 in
      ((attempt env settings bound s1).1, rw (attempt-ok declared s, attempt-ok bound s1) refl)

  -- The answers that the set-up cannot do without: all but those to the declarations and to `basic_qos`.
  pub record IsServing : Type 0 where
    pub opens : (log : Log) → (v : Value) × (env.answer log open_channel ≡ ok v)
    pub names : (log : Log) → (v : Value) × (env.answer log declare_anonymous ≡ ok v)
    pub consumes :
        (log : Log) (queue : Value) (w : Wrapper) (flag : Bool)
        → (v : Value) × (env.answer log (basic_consume queue w flag) ≡ ok v)

  apply_qos-ok : (s : Session) → (apply_qos env settings s).0 ≡ ok tt
  unfolding apply_qos
  apply_qos-ok s = grind (arith, attempt-ok)

  declare_queue-ok :
      IsServing → (s : Session) → (q : Value) × ((declare_queue env settings s).0 ≡ ok q)
  unfolding declare_queue call
  declare_queue-ok serving s =
      let (name, named) = serving.names s.log in
      let declared =
        declare_predefined (of_destination env settings "predefined_queue_name")
          (resolve_queue_arguments settings.destination) in
      elim (Bool-cases (
        settings.predefined_queue
        && truthy (of_destination env settings "predefined_queue_name"))) [
          | inl given ↦
              rw given (
                of_destination env settings "predefined_queue_name",
                rw (attempt-ok declared s) refl,
              )
          | inr anonymous ↦ rw anonymous (name, rw (call, named) refl)
        ]

  consume-ok : IsServing → (queue : Value) (s : Session) → (consume env settings queue s).0 ≡ ok tt
  unfolding consume call
  consume-ok serving queue s =
      let (v1, e1) = serving.consumes s.log queue offloading settings.auto_ack in
      let (v2, e2) = serving.consumes s.log queue automatic true in
      let (v3, e3) = serving.consumes s.log queue direct false in ground (arith, e1, e2, e3)

  with_queue-done :
      IsServing
      → (queue : Value) (s : Session)
      → let (r, s') = with_queue env settings queue s in (r ≡ ok tt) × Consumes s'.log
  with_queue-done serving queue s =
      let (t, same) = with_queue-run queue s in
      let done = consume-ok serving queue t in
      rw same (done, (queue, t.log, consume-log queue t done))

  after_declare :
      IsServing
      → (s : Session)
      → let (r, s') = (declare_queue env settings >>= with_queue env settings) s in
        (r ≡ ok tt) × Consumes s'.log
  after_declare serving s =
      let (q, declared) = declare_queue-ok serving s in
      rw declared (with_queue-done serving q (declare_queue env settings s).1)

  call-run :
      (c : Call) (s : Session) {v : Value}
      → env.answer s.log c ≡ ok v
      → call env settings c s ≡ (ok v, record s { log = did c ∷ s.log })
  unfolding call
  call-run c s h = ground arith

  connected_setup :
      IsServing
      → (s : Session)
      → let (r, s') =
          ((perform env settings open_channel >> keep_channel env settings)
              >> apply_qos env settings
              >> (declare_queue env settings >>= with_queue env settings))
            s in
        (r ≡ ok tt) × Consumes s'.log
  connected_setup serving s =
      let (v, opened) = serving.opens s.log in
      let s1 = record s { has_channel = true; log = did open_channel ∷ s.log } in
      rw (call-run open_channel s opened, apply_qos-ok s1)
        (after_declare serving (apply_qos env settings s1).1)

  -- With a connection, and whether or not the prefetch settings, the declarations and the binding
  -- succeed, the set-up returns, and the last thing it has done is to register the wrapper that the
  -- settings ask for, with the broker's `auto_ack` as configured.
  pub setup-Consumes :
      (s : Session)
      → IsServing
      → s.has_connection ≡ true
      → let (r, s') = setup_channel_and_consumer env settings s in (r ≡ ok tt) × Consumes s'.log
  unfolding setup_channel_and_consumer
  setup-Consumes s serving connected =
      if_ind (λ (o : Outcome (Unit {0}) × Session). (o.0 ≡ ok tt) × Consumes o.1.log)
        s.has_connection (λ yes. connected_setup serving s) (λ no. absurd (ground arith))
