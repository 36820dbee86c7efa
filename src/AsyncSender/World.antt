-- ===== src/AsyncSender/World.antt =====
-- The state of `AsyncSender`, its environment and the log of its calls.
use rabbitmq_pika_adapter.Prelude.{ℕ, Bool, Option, List, ◌∷◌}
use rabbitmq_pika_adapter.Outcome.{Outcome, ok, raised, Action}
use rabbitmq_pika_adapter.Value.{Value, Fields}
use rabbitmq_pika_adapter.Retry.Floats.{Seconds}
use rabbitmq_pika_adapter.AsyncConnection.{Arguments, Source}

-- `publish` awaits the publish, and with it the broker's confirm. `gather_all` is the
-- await of `asyncio.gather` on publishes that are under way, by their numbers: it returns when all are fine, and
-- raises at the first error, with the others still under way.
pub data Call : Type 0 where
  connect : Option Arguments → Call
  open_channel : (publisher_confirms : Bool) → Call
  declare_exchange : (name exchange_type : Value) (durable auto_delete : Bool) → Call
  publish : (body : List ℕ) (routing_key : Value) → Call
  gather_all : (numbers : List ℕ) → Call
  close_channel : Call
  close_connection : Call

-- `began` is a publish that `ensure_future` has put under way, `cancelled_flusher` is `cancel()` of the task that
-- flushes: the `gather` that it may be awaiting raises then.
pub data Event : Type 0 where
  did failed : Call → Event
  cancelled_flusher : Event
  began : (number : ℕ) (body : List ℕ) (routing_key : Value) → Event

-- The last event comes first.
abbrev pub Log : Type 0
Log = List Event

-- How a call ends may depend on all that happened before it. Besides the flusher's, no
-- call is cancelled.
pub record Env (s : Seconds) : Type 0 where
  pub answer : Log → Call → Outcome (Unit {0})
  pub connection_closed : Log → Bool
  pub channel_closed : Log → Bool
  pub flusher_done : Log → Bool
  pub uniform : ℕ → s.T → s.T → s.T

-- What `__init__` fixes. The retry policy has a bound: `max_attempts` is not None.
pub record Settings (s : Seconds) : Type 0 where
  pub source : Source
  pub destination : Fields
  pub confirm_delivery : Bool
  pub confirm_batch_size : ℕ
  pub flushes_periodically : Bool
  pub max_attempts : ℕ
  pub base_delay : s.T
  pub max_delay : s.T
  pub multiplier : s.T
  pub jitter : s.T

-- The first four say which attributes are not None. `pending` are the numbers of the publishes in
-- `_pending_confirms`, `begun` is the number of the next one.
pub record Sender : Type 0 where
  pub has_connection : Bool
  pub has_channel : Bool
  pub has_exchange : Bool
  pub has_flusher : Bool
  pub pending : List ℕ
  pub begun : ℕ
  pub log : Log

unfoldable pub call : {s : Seconds} → Env s → Call → Action Sender (Unit {0})
call env c w = elim (env.answer w.log c) [
  | ok _ ↦ (ok tt, record w { log = did c ∷ w.log })
  | raised e ↦ (raised e, record w { log = failed c ∷ w.log })
]
