-- ===== src/Session/Keeps.antt =====
-- What every call keeps, the operations of a session keep.
use rabbitmq_pika_adapter.Prelude.{true, false, if_ind, Option-cases, inl, inr, if◌then◌else◌, ◌&&◌}
use rabbitmq_pika_adapter.Outcome.{Outcome, ◌>>◌, pure}
use rabbitmq_pika_adapter.Outcome.Respects.{
  Respects, IsPreorder, pure-Respects, if-Respects, bind-Respects, then-Respects,
  try_except-Respects,
}
use rabbitmq_pika_adapter.Value.{Value, dict, truthy, get_or, integer}
use rabbitmq_pika_adapter.Prelude.Int.{pos}
use rabbitmq_pika_adapter.DeadLettering.{resolve_queue_arguments}
use rabbitmq_pika_adapter.Session.{
  Call, basic_qos, declare_predefined, declare_anonymous, exchange_declare, queue_bind,
  basic_consume, offloading, automatic, direct, of_destination, Env, Settings, Session, Do, call,
  skip, perform, attempt, apply_qos, declare_queue, consume, with_queue, channel_usable,
  connection_usable, when_channel, when_connection,
}

module _ (env : Env) (settings : Settings) (R : Session → Session → Type 0) (order : IsPreorder R)
    (calls : (c : Call) → Respects R (call env settings c)) where
  abbrev skips : Respects R (skip env settings)
  skips = pure-Respects R order tt

  pub perform-Respects : (c : Call) → Respects R (perform env settings c)
  perform-Respects c =
      bind-Respects R order (call env settings c) (λ _. skip env settings) (calls c) (λ _. skips)

  pub attempt-Respects : (c : Call) → Respects R (attempt env settings c)
  unfolding attempt
  attempt-Respects c =
      try_except-Respects R order (perform env settings c) (λ e. skip env settings)
        (perform-Respects c) (λ e. skips)

  pub apply_qos-Respects : Respects R (apply_qos env settings)
  unfolding apply_qos
  apply_qos-Respects = elim (Option-cases settings.prefetch_settings) [
    | inl missing ↦ rw missing skips
    | inr (prefetch, given) ↦
        let limit =
          basic_qos (get_or "prefetch_size" (integer (pos 0)) prefetch)
            (get_or "prefetch_count" (integer (pos 0)) prefetch) in
        rw given (
          if-Respects R order (truthy (dict prefetch)) (attempt env settings limit)
            (skip env settings) (attempt-Respects limit) skips)
  ]

  pub declare_queue-Respects : Respects R (declare_queue env settings)
  unfolding declare_queue
  declare_queue-Respects =
      let name = of_destination env settings "predefined_queue_name" in
      let declares = declare_predefined name (resolve_queue_arguments settings.destination) in
      if-Respects R order (settings.predefined_queue && truthy name)
        (attempt env settings declares >> pure name) (call env settings declare_anonymous)
        (then-Respects R order (attempt env settings declares) (pure name)
          (attempt-Respects declares) (pure-Respects R order name))
        (calls declare_anonymous)

  consume-Respects : (queue : Value) → Respects R (consume env settings queue)
  unfolding consume
  consume-Respects queue =
      let offloads = basic_consume queue offloading settings.auto_ack in
      let automatically = basic_consume queue automatic true in
      let directly = basic_consume queue direct false in
      let others =
        if settings.auto_ack
        then perform env settings automatically
        else perform env settings directly in
      if-Respects R order settings.offload (perform env settings offloads) others
        (perform-Respects offloads)
        (if-Respects R order settings.auto_ack (perform env settings automatically)
          (perform env settings directly) (perform-Respects automatically)
          (perform-Respects directly))

  pub with_queue-Respects : (queue : Value) → Respects R (with_queue env settings queue)
  with_queue-Respects queue =
      let declares =
        exchange_declare (of_destination env settings "exchange_name")
          (of_destination env settings "exchange_type") in
      let binds =
        queue_bind queue (of_destination env settings "exchange_name")
          (of_destination env settings "routing_key") in
      then-Respects R order (attempt env settings declares)
        (attempt env settings binds >> consume env settings queue) (attempt-Respects declares)
        (then-Respects R order (attempt env settings binds) (consume env settings queue)
          (attempt-Respects binds) (consume-Respects queue))

  pub when_channel-Respects :
      (m : Do env settings) → Respects R m → Respects R (when_channel env settings m)
  when_channel-Respects m p v =
      if_ind (λ (r : Outcome (Unit {0}) × Session). R v r.1) (channel_usable env settings v)
        (λ _. p v) (λ _. order.reflexive v)

  pub when_connection-Respects :
      (m : Do env settings) → Respects R m → Respects R (when_connection env settings m)
  when_connection-Respects m p v =
      if_ind (λ (r : Outcome (Unit {0}) × Session). R v r.1) (connection_usable env settings v)
        (λ _. p v) (λ _. order.reflexive v)
