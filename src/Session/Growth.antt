-- ===== src/Session/Growth.antt =====
-- What is done with a session only adds to its log.
use rabbitmq_pika_adapter.Prelude.{◌≤◌, ◌<◌, arith, length, if_ind}
use rabbitmq_pika_adapter.Outcome.{Outcome, ◌>>=◌, ◌>>◌}
use rabbitmq_pika_adapter.Outcome.Respects.{Respects, IsPreorder, bind-Respects, then-Respects}
use rabbitmq_pika_adapter.Session.{
  Call, open_channel, Env, Settings, Session, call, perform, keep_channel, apply_qos, declare_queue,
  with_queue, setup_channel_and_consumer,
}
use rabbitmq_pika_adapter.Session.Keeps.{
  perform-Respects, apply_qos-Respects, declare_queue-Respects, with_queue-Respects,
}

-- Nothing is taken back.
abbrev pub Longer : Session → Session → Type 0
Longer v u = length v.log ≤ length u.log

pub longer_order : IsPreorder Longer
longer_order = record { reflexive = λ v. omega arith; transitive = λ p q. omega (arith, p, q) }

module _ (env : Env) (settings : Settings) where
  pub call-further : (c : Call) (v : Session) → length v.log < length (call env settings c v).1.log
  unfolding call
  call-further c v = ground arith

  pub perform-further :
      (c : Call) (v : Session) → length v.log < length (perform env settings c v).1.log
  perform-further c v = ground (arith, call-further c v)

  pub call-Longer : (c : Call) → Respects Longer (call env settings c)
  call-Longer c v = omega (arith, call-further c v)

  abbrev pub performs : (c : Call) → Respects Longer (perform env settings c)
  performs = perform-Respects env settings Longer longer_order call-Longer

  opens-Longer : Respects Longer (perform env settings open_channel >> keep_channel env settings)
  opens-Longer =
      then-Respects Longer longer_order (perform env settings open_channel)
        (keep_channel env settings) (performs open_channel) (λ v. omega arith)

  pub set_up-Longer : Respects Longer (setup_channel_and_consumer env settings)
  unfolding setup_channel_and_consumer
  set_up-Longer v =
      let opens = perform env settings open_channel >> keep_channel env settings in
      let consumes = declare_queue env settings >>= with_queue env settings in
      let qos = apply_qos-Respects env settings Longer longer_order call-Longer in
      let consumed =
        bind-Respects Longer longer_order (declare_queue env settings) (with_queue env settings)
          (declare_queue-Respects env settings Longer longer_order call-Longer)
          (with_queue-Respects env settings Longer longer_order call-Longer) in
      if_ind (λ (r : Outcome (Unit {0}) × Session). Longer v r.1) v.has_connection
        (λ _.
          then-Respects Longer longer_order (opens >> apply_qos env settings) consumes
            (then-Respects Longer longer_order opens (apply_qos env settings) opens-Longer qos)
            consumed v)
        (λ _. omega arith)
