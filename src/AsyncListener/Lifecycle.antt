-- ===== src/AsyncListener/Lifecycle.antt =====
-- `__init__`, `start` and `stop` of `AsyncListener`.
use rabbitmq_pika_adapter.Prelude.{
  ℕ, String, Bool, true, false, not, ◌&&◌, Option, none, some, List, [], if◌then◌else◌,
}
use rabbitmq_pika_adapter.Prelude.Int.{ℤ, pos, ltb_ℤ, nonneg}
use rabbitmq_pika_adapter.Outcome.{Outcome, ok, raised, Action, ◌>>◌, pure, raise, async_try}
use rabbitmq_pika_adapter.Value.{Value, null, boolean, string, get_or, truthy}
use rabbitmq_pika_adapter.AsyncConnection.{Arguments, target}
use rabbitmq_pika_adapter.AsyncListener.World.{
  Message, Call, connect, open_channel, set_qos, declare_exchange, declare_queue, bind, consume,
  cancel_consumer, wait_for_tasks, close_channel, close_connection, Env, Settings, Listener, call,
}

-- `_max_concurrency`: at least one when it is given; else the prefetch count if that is positive,
-- and else 100.
unfoldable pub max_concurrency : Option ℤ → ℤ → ℕ
max_concurrency none prefetch_count =
    if ltb_ℤ (pos 0) prefetch_count then nonneg prefetch_count else 100
max_concurrency (some n) prefetch_count = if ltb_ℤ (pos 1) n then nonneg n else 1

module _ (env : Env) (settings : Settings) where
  abbrev pub Do : Type 0
  Do = Action Listener (Unit {0})

  abbrev pub skip : Do
  skip = pure tt

  abbrev pub modify : (Listener → Listener) → Do
  modify f s = (ok tt, f s)

  abbrev pub connect_to : Outcome (Option Arguments) → Do
  connect_to (raised e) = raise e
  connect_to (ok arguments) = call env (connect arguments)

  abbrev pub of_destination : String → Value
  of_destination key = get_or key null settings.destination

  -- `bool(destination.get(key, default))`
  abbrev pub flag : String → Bool → Bool
  flag key default = truthy (get_or key (boolean default) settings.destination)

  -- `a or b`
  abbrev pub or_value : Value → Value → Value
  or_value a b = if truthy a then a else b

  abbrev pub queue_arguments : Value
  queue_arguments =
      or_value (or_value (of_destination "queue_arguments") (of_destination "queue_args"))
        (of_destination "queue_declare_arguments")

  unfoldable pub declare_its_queue : Do
  unfolding call get_or truthy
  declare_its_queue =
      if settings.predefined_queue && truthy (of_destination "predefined_queue_name")
      then call env (
          declare_queue (of_destination "predefined_queue_name") (flag "queue_durable" true) false
            (flag "queue_auto_delete" false) queue_arguments)
      else call env (declare_queue (string "") false true true queue_arguments)

  abbrev pub set_prefetch : Do
  set_prefetch =
      if ltb_ℤ (pos 0) settings.prefetch_count
      then call env (set_qos settings.prefetch_count)
      else skip

  -- What `start` does once it is connected.
  unfoldable pub set_up : Do
  unfolding call get_or truthy declare_its_queue
  set_up = do
    call env open_channel
    modify (λ s. record s { has_channel = true })
    set_prefetch
    call env (
        declare_exchange (of_destination "exchange_name") (of_destination "exchange_type")
          (flag "exchange_durable" true) (flag "exchange_auto_delete" false))
    declare_its_queue
    call env (bind (or_value (of_destination "routing_key") (string "")))
    modify (λ s. record s { has_queue = true; semaphore = some settings.max_concurrency })
    call env (consume settings.auto_ack)
    modify (λ s. record s { has_consumer = true })

  -- `self._conn and not self._conn.is_closed`
  abbrev pub connected : Listener → Bool
  connected s = s.has_connection && not (env.connection_closed s.log)

  unfoldable pub start : Do
  unfolding target set_up
  start s =
      if connected s
      then skip s
      else (do
        connect_to (target settings.source)
        modify (λ s1. record s1 { has_connection = true })
        set_up)
          s

  -- `try: await call` / `except Exception: pass`
  abbrev pub attempt : Call → Do
  attempt c = async_try (call env c) (λ e. skip)

  abbrev pub attempt_if : Bool → Call → Do
  attempt_if b c = if b then attempt c else skip

  abbrev pub is_empty_set : List Message → List Message → Bool
  is_empty_set [] [] = true
  is_empty_set _ _ = false

  -- The `try` of `stop`.
  unfoldable pub drain : Do
  unfolding call
  drain s =
      (do
        attempt_if (s.has_queue && s.has_consumer) cancel_consumer
        λ s1. attempt_if (not (is_empty_set s1.waiting s1.running)) wait_for_tasks s1)
        s

  -- Its `finally`.
  unfoldable pub let_go : Do
  unfolding call
  let_go = do
    modify (λ s. record s { has_consumer = false; semaphore = none })
    λ s. attempt_if (s.has_channel && not (env.channel_closed s.log)) close_channel s
    modify (λ s. record s { has_channel = false })
    λ s. attempt_if (connected s) close_connection s
    modify (λ s. record s { has_connection = false })

  -- What the `finally` does after an exception: the exception goes on unless it raises one itself.
  abbrev pub after_drain : Outcome (Unit {0}) → Do
  after_drain (ok _) = let_go
  after_drain (raised e) = let_go >> raise e

  -- `stop`. The tasks that are left in `_in_flight` are forgotten, not ended.
  unfoldable pub stop : Do
  unfolding drain let_go
  stop s = let (r, s1) = drain s in after_drain r s1
