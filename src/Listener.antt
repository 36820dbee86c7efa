-- ===== src/Listener.antt =====
-- The message handlers of `Listener` in src/mq_adapters/sync_adapter.py. Every call of code outside
-- the library goes through an environment that answers by the history of the calls before it, and is
-- written to the log, as is every `Stats.inc`.
pub mod Message
pub mod World
pub mod Keeps
pub mod Accounting
pub mod Failures
pub mod System
pub use Message.*
unfoldable pub use World.*
use rabbitmq_pika_adapter.Prelude.{
  ℕ, suc, ◌-◌, ◌+◌, String, Bool, true, false, not, Option, none, some, List, [], ◌∷◌, ◌++◌, ◌&&◌,
  leb, text_eq, str_eq, if◌then◌else◌,
}
use rabbitmq_pika_adapter.Prelude.Int.{ℤ, leb_ℤ}
use rabbitmq_pika_adapter.Outcome.{
  Exception, Outcome, ok, raised, Action, ◌>>=◌, ◌>>◌, pure, try_except, suppress,
}
use rabbitmq_pika_adapter.Stats.{received, handler_exceptions, acked, nacked}
use rabbitmq_pika_adapter.Value.{Value, Fields}
use rabbitmq_pika_adapter.DeadLettering.{
  DeadLetteringConfig, dead_letter, resolve_dead_lettering_config, retry_attempt_from_headers,
}

-- `cfg.dead_letter_queue and attempt >= int(cfg.max_retries)`: the queue to publish to, if any
unfoldable pub poison_queue : DeadLetteringConfig → ℤ → Option String
poison_queue cfg attempt = elim cfg.dead_letter_queue [
  | none ↦ none
  | some q ↦ if not (str_eq q "") && leb_ℤ cfg.max_retries attempt then some q else none
]

abbrev pub headers_of : Option Properties → Option Fields
headers_of none = none
headers_of (some p) = p.headers

module _ (env : Env) (settings : Settings) where
  abbrev pub Handler : Type 0
  Handler = Action Listener (Unit {0})

  abbrev pub skip : Handler
  skip = pure tt

  abbrev when_tagged : Option ℕ → (ℕ → Handler) → Handler
  when_tagged none f = skip
  when_tagged (some tag) f = f tag

  -- `basic_ack` and its counter
  unfoldable pub acknowledge : ℕ → Handler
  acknowledge tag = do call env (basic_ack tag); count acked

  unfoldable pub reject : ℕ → Bool → Handler
  reject tag requeue = do call env (basic_nack tag requeue); count nacked

  -- `_internal_wrapper`
  unfoldable pub internal_wrapper : Delivery → Handler
  unfolding call count acknowledge reject
  internal_wrapper d s =
      if s.stop_me
      then skip s
      else (do
        count received
        try_except
            (do
              call env (user_callback d)
              if settings.auto_ack then skip else when_tagged d.delivery_tag acknowledge)
            (λ e.
              if settings.auto_ack
              then skip
              else when_tagged d.delivery_tag (λ tag. reject tag true)))
          s

  -- `_auto_ack_wrapper`
  unfoldable pub auto_ack_wrapper : Delivery → Handler
  unfolding call count
  auto_ack_wrapper d s =
      if s.stop_me then skip s else (do count received; call env (user_callback d)) s

  -- The copy of the properties for the dead-letter queue; the original if that raises.
  unfoldable pub dead_letter_properties : Option Properties → Action Listener (Option Properties)
  unfolding call copy_properties
  dead_letter_properties none = pure none
  dead_letter_properties (some p) =
      try_except
        (call env (basic_properties (copy_properties p)) >>= λ _. pure (some (copy_properties p)))
        (λ e. pure (some p))

  abbrev pub after_poison : Option String → ℕ → Delivery → DeadLetteringConfig → Handler
  after_poison (some queue) tag d cfg = do
    properties ← dead_letter_properties d.properties
    call env (basic_publish "" queue d.body properties)
    acknowledge tag
  after_poison none tag d cfg = reject tag (not (text_eq cfg.on_error dead_letter))

  -- `_handle_fail`
  unfoldable pub handle_fail : ℕ → Delivery → DeadLetteringConfig → ℤ → Handler
  unfolding call count acknowledge reject dead_letter_properties poison_queue
  handle_fail tag d cfg attempt =
      try_except (after_poison (poison_queue cfg attempt) tag d cfg) (λ e. skip)

  -- `_ack`, and `_handle_fail` with what it closes over
  unfoldable pub run_job : Job → Handler
  unfolding acknowledge handle_fail
  run_job (ack_job tag) = try_except (acknowledge tag) (λ e. skip)
  run_job (fail_job tag d cfg attempt) = handle_fail tag d cfg attempt

  unfoldable pub job_for : Outcome (Unit {0}) → ℕ → Delivery → Job
  unfolding resolve_dead_lettering_config retry_attempt_from_headers
  job_for (ok _) tag d = ack_job tag
  job_for (raised _) tag d =
      fail_job tag d (resolve_dead_lettering_config settings.render settings.destination)
        (retry_attempt_from_headers (headers_of d.properties))

  -- `add_callback_threadsafe(job)`: the connection's thread will run the job
  unfoldable pub hand_over : Job → Handler
  unfolding call
  hand_over job = do
    call env (add_callback_threadsafe job)
    λ s. (ok tt, record s { scheduled = s.scheduled ++ job ∷ [] })

  unfoldable pub schedule : Job → Handler
  unfolding hand_over run_job
  schedule job =
      try_except (λ s. if env.connection_open s.log then hand_over job s else run_job job s)
        (λ e. suppress (run_job job))

  abbrev pub release : Listener → Listener
  release s = record s { permits = s.permits + 1 }

  -- The body of `_on_done`, without its `finally`.
  unfoldable pub settle : Delivery → Outcome (Unit {0}) → Handler
  unfolding schedule job_for
  settle d result =
      if settings.auto_ack
      then skip
      else when_tagged d.delivery_tag (λ tag. schedule (job_for result tag d))

  abbrev count_failure : Outcome (Unit {0}) → Handler
  count_failure (ok _) = skip
  count_failure (raised _) = count handler_exceptions

  -- `_on_done`: the callback of delivery `d` has ended with `result`.
  unfoldable pub on_done : Delivery → Outcome (Unit {0}) → Handler
  unfolding settle count
  on_done d result s = let (r, s') = (count_failure result >> settle d result) s in (r, release s')

  -- `submit` and `add_done_callback`: the task runs in a worker. `submit` raises after a shutdown.
  unfoldable pub submit : Delivery → Handler
  unfolding call
  submit d = do call env (submit_task d); λ s. (ok tt, record s { running = d ∷ s.running })

  -- `_offload_wrapper`, from the moment when a permit is there or `stop_me` is set: what other
  -- threads do while `acquire` waits comes before.
  unfoldable pub offload_wrapper : Delivery → Handler
  unfolding internal_wrapper count submit
  offload_wrapper d s =
      if not settings.offload
      then internal_wrapper d s
      else if s.stop_me
      then skip s
      else (do
        count received
        λ s'.
            try_except (submit d) (λ e s2. internal_wrapper d (release s2))
              (record s' { permits = s'.permits - 1 }))
          s
