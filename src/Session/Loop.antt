-- ===== src/Session/Loop.antt =====
-- The thread of `Listener` in src/mq_adapters/sync_adapter.py: connecting with retries, and a round of `run`.
use rabbitmq_pika_adapter.Prelude.{
  ℕ, zero, suc, ◌+◌, ◌≡◌, Bool, true, false, Option, none, some, [], ◌∷◌, if◌then◌else◌,
}
use rabbitmq_pika_adapter.Outcome.{
  overflow_error, assertion_error, Outcome, ok, raised, Action, ◌>>◌, pure, raise, try_except,
}
use rabbitmq_pika_adapter.Stats.{Counter, connections_opened, reconnect_attempts}
use rabbitmq_pika_adapter.Retry.Floats.{Seconds}
use rabbitmq_pika_adapter.Retry.{RetryPolicy, delay_for_attempt, sync_retry}
use rabbitmq_pika_adapter.Session.{
  connect, process_data_events, close_channel, close_connection, counted, Log, Env, Settings,
  Session, Do, skip, call, perform, attempt, when_channel, when_connection, count_closed,
  setup_channel_and_consumer, channel_usable, connection_usable,
}

-- `failures` is `__loop_failures`. The other attributes are in the session.
pub record Thread : Type 0 where
  pub session : Session
  pub failures : ℕ

unfoldable pub new_thread : Thread
new_thread = record {
  session = record { stop_me = false; has_channel = false; has_connection = false; log = [] };
  failures = 0;
}

-- `asked` is what the thread reads in `stop_me`, which other threads set. `uniform` answers `random.uniform`.
module _ (s : Seconds) (env : Env) (settings : Settings) (asked : Log → Bool)
    (connect_policy loop_policy : RetryPolicy s) (uniform : ℕ → s.T → s.T → s.T) where
  abbrev pub Body : Type 0
  Body = Action Thread (Unit {0})

  abbrev pub on_session : Do env settings → Body
  on_session m w = let (r, v) = m w.session in (r, record w { session = v })

  abbrev pub count : Counter → Do env settings
  count c v = (ok tt, record v { log = counted c ∷ v.log })

  abbrev pub keep_connection : Do env settings
  keep_connection v = (ok tt, record v { has_connection = true })

  -- `_connect_once`
  unfoldable pub connect_once : Do env settings
  unfolding call
  connect_once = do perform env settings connect; keep_connection; count connections_opened

  -- `__create_connection` on fuel; `none` means that it is still trying.
  unfoldable pub create_connection : ℕ → Session → Option (Outcome (Unit {0}) × Session)
  unfolding sync_retry connect_once
  create_connection fuel v =
      sync_retry s connect_policy uniform (λ d w. w) connect_once (some (λ w. asked w.log)) fuel v

  unfoldable pub connect_if_needed : ℕ → Session → Option (Outcome (Unit {0}) × Session)
  unfolding create_connection
  connect_if_needed fuel v =
      if connection_usable env settings v then some (ok tt, v) else create_connection fuel v

  abbrev pub after_delay : Option s.T → Body
  after_delay none = raise overflow_error
  after_delay (some d) = pure tt

  -- `delay_for_attempt` of the next attempt, and the sleep
  unfoldable pub back_off : Body
  unfolding delay_for_attempt
  back_off w = after_delay (delay_for_attempt s loop_policy (w.failures + 1) (uniform w.failures)) w

  abbrev pub forget : Body
  forget w = (
    ok tt,
    record w {
      session = record w.session { has_channel = false; has_connection = false };
      failures = suc w.failures;
    },
  )

  unfoldable pub close_counted : Do env settings
  unfolding call
  close_counted =
      try_except
        (when_connection env settings
          (perform env settings close_connection >> count_closed env settings))
        (λ e. skip env settings)

  -- What both handlers do unless the thread is to stop.
  unfoldable pub reconnect : Body
  unfolding attempt close_counted back_off
  reconnect = do
    on_session (when_channel env settings (attempt env settings close_channel))
    on_session close_counted
    forget
    on_session (count reconnect_attempts)
    back_off

  abbrev pub unless_asked : Body → Body
  unless_asked m w = if asked w.session.log then pure tt w else m w

  abbrev pub no_failures : Body
  no_failures w = (ok tt, record w { failures = 0 })

  unfoldable pub process : Body
  unfolding call reconnect
  process =
      try_except (on_session (perform env settings process_data_events) >> no_failures)
        (λ e. unless_asked reconnect)

  unfoldable pub assert_connection : Body
  assert_connection w = if w.session.has_connection then pure tt w else raise assertion_error w

  unfoldable pub set_up_if_needed : Body
  unfolding setup_channel_and_consumer
  set_up_if_needed w =
      if channel_usable env settings w.session
      then pure tt w
      else on_session (setup_channel_and_consumer env settings) w

  abbrev pub as_action : Outcome (Unit {0}) → Body
  as_action r w = (r, w)

  -- A round, once `__create_connection` has ended with `r`.
  unfoldable pub serve : Outcome (Unit {0}) → Body
  unfolding assert_connection set_up_if_needed process reconnect
  serve r =
      try_except (as_action r >> (assert_connection >> (set_up_if_needed >> process)))
        (λ e. unless_asked reconnect)

  abbrev pub then_serve :
      Thread → Option (Outcome (Unit {0}) × Session) → Option (Outcome (Unit {0}) × Thread)
  then_serve w none = none
  then_serve w (some (r, v)) = some (serve r (record w { session = v }))

  -- A round of `run`. When it raises, the thread is gone.
  unfoldable pub round : ℕ → Thread → Option (Outcome (Unit {0}) × Thread)
  unfolding connect_if_needed serve
  round fuel w = then_serve w (connect_if_needed fuel w.session)

  abbrev pub after_round :
      (Thread → Option (Outcome (Unit {0}) × Thread))
      → Option (Outcome (Unit {0}) × Thread)
      → Option (Outcome (Unit {0}) × Thread)
  after_round continue none = none
  after_round continue (some (raised e, u)) = some (raised e, u)
  after_round continue (some (ok a, u)) = continue u

  -- The loop of `run`, on fuel for its rounds and for the retries of each connection.
  unfoldable pub run : ℕ → ℕ → Thread → Option (Outcome (Unit {0}) × Thread)
  unfolding round
  run zero fuel w = none
  run (suc k) fuel w =
      if asked w.session.log
      then some (ok tt, w)
      else after_round (λ u. run k fuel u) (round fuel w)

  -- Rounds are made while the thread is not asked to stop.
  pub data Reach (w : Thread) : Thread → Type 0 where
    here : Reach w w
    next :
        (fuel : ℕ) {v u : Thread}
        → Reach w v
        → asked v.session.log ≡ false
        → round fuel v ≡ some (ok tt, u)
        → Reach w u
