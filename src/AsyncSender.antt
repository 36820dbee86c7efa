-- ===== src/AsyncSender.antt =====
-- `AsyncSender` in src/mq_adapters/async_adapter.py. The coroutines of a sender run one after another
-- here; the periodic flush is an operation that may come between them.
pub mod World
pub mod Retrying
pub mod Keeps
pub mod Runs
pub mod Construction
pub mod Delivery
pub mod Pending
pub mod Confirms
pub mod Stopping
pub mod Coroutines
unfoldable pub use World.*
use rabbitmq_pika_adapter.Prelude.{
  ℕ, suc, String, Bool, true, false, not, ◌&&◌, ◌||◌, Option, none, some, List, [], ◌∷◌, ◌++◌, ltb,
  leb, str_eq, length, if◌then◌else◌,
}
use rabbitmq_pika_adapter.Outcome.{
  Exception, assertion_error, runtime_error, Outcome, ok, raised, Action, ◌>>=◌, ◌>>◌, pure, raise,
  try_except,
}
use rabbitmq_pika_adapter.Value.{Value, null, boolean, string, get_or, truthy}
use rabbitmq_pika_adapter.Retry.Floats.{Seconds}
use rabbitmq_pika_adapter.Retry.{RetryPolicy, async_retry}
use rabbitmq_pika_adapter.AsyncConnection.{Arguments, target}

module _ {s : Seconds} (env : Env s) (settings : Settings s) where
  abbrev pub Do : Type 0
  Do = Action Sender (Unit {0})

  abbrev pub skip : Do
  skip = pure tt

  abbrev pub modify : (Sender → Sender) → Do
  modify f w = (ok tt, f w)

  abbrev pub policy : RetryPolicy s
  policy = record {
    max_attempts = some settings.max_attempts;
    base_delay = settings.base_delay;
    max_delay = settings.max_delay;
    multiplier = settings.multiplier;
    jitter = settings.jitter;
  }

  abbrev pub ended : Option (Outcome (Unit {0}) × Sender) → Sender → Outcome (Unit {0}) × Sender
  ended none w = (raised runtime_error, w)
  ended (some result) w = result

  -- `async_retry`. The fuel is more than the policy's attempts, so it does not run out.
  unfoldable pub retried : Do → Do
  unfolding async_retry
  retried func w =
      ended (async_retry s policy env.uniform (λ d v. v) func (suc settings.max_attempts) w) w

  abbrev pub connect_to : Outcome (Option Arguments) → Do
  connect_to (raised e) = raise e
  connect_to (ok arguments) = call env (connect arguments)

  abbrev pub of_destination : String → Value
  of_destination key = get_or key null settings.destination

  abbrev pub flag : String → Bool → Bool
  flag key default = truthy (get_or key (boolean default) settings.destination)

  abbrev pub batches : Bool
  batches = settings.confirm_delivery && ltb 0 settings.confirm_batch_size

  -- A flusher is started unless one is running.
  abbrev pub start_flusher : Do
  start_flusher w =
      if (batches && settings.flushes_periodically) && (not w.has_flusher || env.flusher_done w.log)
      then (ok tt, record w { has_flusher = true })
      else skip w

  -- `_do_start`
  unfoldable pub do_start : Do
  unfolding call target get_or truthy
  do_start = do
    connect_to (target settings.source)
    modify (λ w. record w { has_connection = true })
    call env (open_channel settings.confirm_delivery)
    modify (λ w. record w { has_channel = true })
    call env (
        declare_exchange (of_destination "exchange_name") (of_destination "exchange_type")
          (flag "exchange_durable" true) (flag "exchange_auto_delete" false))
    modify (λ w. record w { has_exchange = true })
    start_flusher

  abbrev pub connected : Sender → Bool
  connected w = w.has_connection && not (env.connection_closed w.log)

  -- `start`
  unfoldable pub start : Do
  unfolding retried do_start
  start w = if connected w then skip w else retried do_start w

  -- `asyncio.gather`, of some publishes
  unfoldable pub gather : List ℕ → Do
  unfolding call
  gather [] w = (ok tt, w)
  gather (n ∷ ns) w = call env (gather_all (n ∷ ns)) w

  -- `_flush_confirms`; without pending publishes it does nothing
  unfoldable pub flush_confirms : Do
  unfolding gather
  flush_confirms w = gather w.pending (record w { pending = [] })

  -- A round of `_flush_confirms_periodically`.
  abbrev pub flush_round : Do
  flush_round w = if connected w then try_except flush_confirms (λ e. skip) w else skip w

  -- `routing_key or destination.get("routing_key") or ""`
  abbrev pub default_key : Value
  default_key =
      if truthy (of_destination "routing_key") then of_destination "routing_key" else string ""

  abbrev pub key_of : Option String → Value
  key_of none = default_key
  key_of (some k) = if str_eq k "" then default_key else string k

  abbrev pub begin : List ℕ → Value → Sender → Sender
  begin body key w = record w {
    pending = w.pending ++ w.begun ∷ [];
    begun = suc w.begun;
    log = began w.begun body key ∷ w.log;
  }

  abbrev pub flush_when_full : Do
  flush_when_full w =
      if leb settings.confirm_batch_size (length w.pending) then flush_confirms w else skip w

  unfoldable pub publish_now : List ℕ → Value → Do
  unfolding call flush_confirms truthy get_or
  publish_now body key w =
      if not w.has_exchange
      then raise assertion_error w
      else if batches
      then flush_when_full (begin body key w)
      else call env (publish body key) w

  abbrev pub ready : Sender → Bool
  ready w = w.has_channel && (w.has_exchange && connected w)

  abbrev pub start_unless_ready : Do
  start_unless_ready w = if ready w then skip w else start w

  -- `_do_publish`
  unfoldable pub do_publish : List ℕ → Option String → Do
  unfolding start publish_now
  do_publish body routing_key = start_unless_ready >> publish_now body (key_of routing_key)

  abbrev pub forget_on_error : Outcome (Unit {0}) × Sender → Outcome (Unit {0}) × Sender
  forget_on_error (ok u, w) = (ok u, w)
  forget_on_error (raised e, w) =
      (raised e, record w { has_channel = false; has_exchange = false; has_connection = false })

  -- `send`, of what the serializer has made of the message
  unfoldable pub send : Outcome (List ℕ) → Option String → Do
  unfolding retried do_publish
  send (raised e) routing_key w = (raised e, w)
  send (ok body) routing_key w = forget_on_error (retried (do_publish body routing_key) w)

  -- `cancel()` is asked of the flusher, and raises nothing.
  abbrev pub cancel_flusher : Do
  cancel_flusher w =
      if w.has_flusher
      then (ok tt, record w { has_flusher = false; log = cancelled_flusher ∷ w.log })
      else skip w

  -- The `try` of `stop`.
  unfoldable pub stop_body : Do
  unfolding flush_confirms call
  stop_body = do
    try_except flush_confirms (λ e. skip)
    cancel_flusher
    λ w.
        if w.has_channel && not (env.channel_closed w.log) then call env close_channel w else skip w

  -- Its `finally`.
  unfoldable pub stop_finally : Do
  unfolding call
  stop_finally = do
    modify (λ w. record w { has_channel = false; has_exchange = false })
    λ w. if connected w then call env close_connection w else skip w
    modify (λ w. record w { has_connection = false })

  abbrev pub last_error : Outcome (Unit {0}) → Outcome (Unit {0}) → Outcome (Unit {0})
  last_error r (raised e) = raised e
  last_error r (ok _) = r

  -- `stop`
  unfoldable pub stop : Do
  unfolding stop_body stop_finally
  stop w = let (r, w1) = stop_body w in let (r2, w2) = stop_finally w1 in (last_error r r2, w2)
