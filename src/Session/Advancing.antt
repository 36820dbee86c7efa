-- ===== src/Session/Advancing.antt =====
-- Each round of the listener's thread does something: its log grows.
use rabbitmq_pika_adapter.Prelude.{
  ℕ, suc, ◌+◌, ◌<◌, ◌≡◌, refl, Bool, true, false, Option, none, some, ◌∷◌, arith, length, ◌⊎◌, inl,
  inr, if_ind,
}
use rabbitmq_pika_adapter.Outcome.{Outcome, ok, raised, and_then, ◌>>◌, try_except, handle}
use rabbitmq_pika_adapter.Outcome.Respects.{Respects, then-Respects, try_except-Respects}
use rabbitmq_pika_adapter.Retry.Floats.{Seconds}
use rabbitmq_pika_adapter.Retry.{RetryPolicy, delay_for_attempt}
use rabbitmq_pika_adapter.Stats.{reconnect_attempts}
use rabbitmq_pika_adapter.Session.{
  process_data_events, close_channel, close_connection, counted, Log, Env, Settings, skip, perform,
  attempt, channel_usable, when_channel, when_connection, count_closed,
}
use rabbitmq_pika_adapter.Session.Keeps.{
  attempt-Respects, when_channel-Respects, when_connection-Respects,
}
use rabbitmq_pika_adapter.Session.Reconnecting.{close_channel_ok, close_counted_ok}
use rabbitmq_pika_adapter.Session.Loop.{
  Thread, Body, close_counted, after_delay, back_off, reconnect, unless_asked, no_failures, process,
  assert_connection, set_up_if_needed, as_action, serve,
}
use rabbitmq_pika_adapter.Session.Growth.{
  Longer, longer_order, call-Longer, performs, perform-further, set_up-Longer,
}

module _ (s : Seconds) (env : Env) (settings : Settings) (asked : Log → Bool)
    (connect_policy loop_policy : RetryPolicy s) (uniform : ℕ → s.T → s.T → s.T) where
  abbrev Acts : Type 0
  Acts = Body s env settings asked connect_policy loop_policy uniform

  abbrev Further : Thread → Thread → Type 0
  Further w u = length w.session.log < length u.session.log

  -- The thread is asked to stop, or its log has grown.
  abbrev pub Advances : Thread → Thread → Type 0
  Advances w u = (asked u.session.log ≡ true) ⊎ Further w u

  close_counted-Longer :
      Respects Longer (close_counted s env settings asked connect_policy loop_policy uniform)
  unfolding close_counted
  close_counted-Longer =
      let closes = perform env settings close_connection >> count_closed env settings in
      try_except-Respects Longer longer_order (when_connection env settings closes)
        (λ e. skip env settings)
        (when_connection-Respects env settings Longer longer_order (call-Longer env settings) closes
          (then-Respects Longer longer_order (perform env settings close_connection)
            (count_closed env settings) (performs env settings close_connection)
            (λ v. omega arith)))
        (λ e v. omega arith)

  after_delay-thread :
      (o : Option s.T) (w : Thread)
      → (after_delay s env settings asked connect_policy loop_policy uniform o w).1 ≡ w
  after_delay-thread none w = refl
  after_delay-thread (some d) w = refl

  reconnect-Further :
      (w : Thread)
      → Further w (reconnect s env settings asked connect_policy loop_policy uniform w).1
  unfolding reconnect back_off
  reconnect-Further w =
      let closes = when_channel env settings (attempt env settings close_channel) in
      let v1 = (closes w.session).1 in
      let v2 = (close_counted s env settings asked connect_policy loop_policy uniform v1).1 in
      let v3 = record v2 {
        has_channel = false;
        has_connection = false;
        log = counted reconnect_attempts ∷ v2.log;
      } in
      let w3 : Thread = record { session = v3; failures = suc w.failures } in
      let first =
        when_channel-Respects env settings Longer longer_order (call-Longer env settings)
          (attempt env settings close_channel)
          (attempt-Respects env settings Longer longer_order (call-Longer env settings)
            close_channel)
          w.session in
      let second = close_counted-Longer v1 in
      rw
        (
          close_channel_ok s env settings asked connect_policy loop_policy uniform w.session,
          close_counted_ok s env settings asked connect_policy loop_policy uniform v1,
          after_delay-thread
              (delay_for_attempt s loop_policy (w3.failures + 1) (uniform w3.failures)) w3,
        )
        (omega (arith, first, second))

  abbrev handles : Acts
  handles =
      unless_asked s env settings asked connect_policy loop_policy uniform
        (reconnect s env settings asked connect_policy loop_policy uniform)

  handles-Advances : (w : Thread) → Advances w (handles w).1
  handles-Advances w =
      if_ind (λ (r : Outcome (Unit {0}) × Thread). Advances w r.1) (asked w.session.log)
        (λ h. inl h) (λ h. inr (reconnect-Further w))

  handles-LongerThread : (w : Thread) → Longer w.session (handles w).1.session
  handles-LongerThread w =
      if_ind (λ (r : Outcome (Unit {0}) × Thread). Longer w.session r.1.session)
        (asked w.session.log) (λ h. omega arith) (λ h. omega (arith, reconnect-Further w))

  pub longer_then : (w v u : Thread) → Longer w.session v.session → Advances v u → Advances w u
  longer_then w v u p (inl h) = inl h
  longer_then w v u p (inr q) = inr (omega (arith, p, q))

  processed-Further :
      (r : Outcome (Unit {0})) (w v : Thread)
      → Further w v
      → let m =
          try_except
            (as_action s env settings asked connect_policy loop_policy uniform r
              >> no_failures s env settings asked connect_policy loop_policy uniform)
            (λ e. handles) in
        Further w (m v).1
  processed-Further (ok a) w v p = p
  processed-Further (raised e) w v p = omega (arith, p, handles-LongerThread v)

  process-Further :
      (w : Thread) → Further w (process s env settings asked connect_policy loop_policy uniform w).1
  unfolding process
  process-Further w =
      let (r, v) = perform env settings process_data_events w.session in
      processed-Further r w (record w { session = v })
        (perform-further env settings process_data_events w.session)

  -- The log does not shrink, and grows where the action returns.
  record IsFurther (m : Acts) : Type 0 where
    longer : (w : Thread) → Longer w.session (m w).1.session
    further : (w : Thread) → (m w).0 ≡ ok tt → Further w (m w).1

  bind-longer :
      (n : Acts) (r : Outcome (Unit {0})) (w v : Thread)
      → IsFurther n
      → Longer w.session v.session
      → let (q, u) = and_then r (λ _. n) v in Longer w.session u.session × (q ≡ ok tt → Further w u)
  bind-longer n (ok a) w v h p =
      (omega (arith, p, h.longer v), λ e. let q = h.further v e in omega (arith, p, q))
  bind-longer n (raised x) w v h p = (p, λ e. absurd (cc))

  then-IsFurther :
      (m n : Acts)
      → ((w : Thread) → Longer w.session (m w).1.session)
      → IsFurther n
      → IsFurther (m >> n)
  then-IsFurther m n p h = record {
    longer = λ w. (bind-longer n (m w).0 w (m w).1 h (p w)).0;
    further = λ w e. (bind-longer n (m w).0 w (m w).1 h (p w)).1 e;
  }

  abbrev asserts : Acts
  asserts = assert_connection s env settings asked connect_policy loop_policy uniform

  abbrev sets_up : Acts
  sets_up = set_up_if_needed s env settings asked connect_policy loop_policy uniform

  abbrev processes : Acts
  processes = process s env settings asked connect_policy loop_policy uniform

  asserts-Longer : (w : Thread) → Longer w.session (asserts w).1.session
  unfolding assert_connection
  asserts-Longer w = ground arith

  sets_up-Longer : (w : Thread) → Longer w.session (sets_up w).1.session
  unfolding set_up_if_needed
  sets_up-Longer w =
      if_ind (λ (r : Outcome (Unit {0}) × Thread). Longer w.session r.1.session)
        (channel_usable env settings w.session) (λ _. omega arith)
        (λ _. set_up-Longer env settings w.session)

  abbrev body : Outcome (Unit {0}) → Acts
  body r =
      as_action s env settings asked connect_policy loop_policy uniform r
      >> (asserts >> (sets_up >> processes))

  body-IsFurther : (r : Outcome (Unit {0})) → IsFurther (body r)
  body-IsFurther r =
      let last : IsFurther processes = record {
        longer = λ w. omega (arith, process-Further w);
        further = λ w e. process-Further w;
      } in
      then-IsFurther (as_action s env settings asked connect_policy loop_policy uniform r)
        (asserts >> (sets_up >> processes)) (λ w. omega arith)
        (then-IsFurther asserts (sets_up >> processes) asserts-Longer
          (then-IsFurther sets_up processes sets_up-Longer last))

  handled-Advances :
      (r : Outcome (Unit {0})) (w v : Thread)
      → Longer w.session v.session
      → (r ≡ ok tt → Further w v)
      → Advances w (handle r (λ e. handles) v).1
  handled-Advances (ok a) w v p q = inr (q refl)
  handled-Advances (raised e) w v p q = longer_then w v (handles v).1 p (handles-Advances v)

  pub serve-Advances :
      (r : Outcome (Unit {0})) (w : Thread)
      → Advances w (serve s env settings asked connect_policy loop_policy uniform r w).1
  unfolding serve
  serve-Advances r w =
      let h = body-IsFurther r in
      handled-Advances (body r w).0 w (body r w).1 (h.longer w) (h.further w)
