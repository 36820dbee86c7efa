-- ===== src/Backend/World.antt =====
-- The state of `SyncPublishBackend`, its environment and the log of the calls that it makes.
use rabbitmq_pika_adapter.Prelude.{ℕ, Bool, Option, List, ◌∷◌}
use rabbitmq_pika_adapter.Outcome.{Outcome, ok, raised, Action}
use rabbitmq_pika_adapter.Value.{Value}
use rabbitmq_pika_adapter.Stats.{Counter}
use rabbitmq_pika_adapter.Retry.Floats.{Seconds}
use rabbitmq_pika_adapter.Retry.{RetryPolicy}

pub record PublishRequest : Type 0 where
  pub body : List ℕ
  pub exchange : Value
  pub routing_key : Value

-- Calls of the connection factory and of pika. Channels are numbered in the order of their creation.
pub data Call : Type 0 where
  open_connection : Call
  open_channel : Call
  confirm_delivery : (channel : ℕ) → Call
  process_data_events : Call
  basic_publish : (channel : ℕ) → PublishRequest → Call
  close_channel : (channel : ℕ) → Call
  close_connection : Call

pub data Event : Type 0 where
  did failed : Call → Event
  counted : Counter → Event

-- The last event comes first.
abbrev pub Log : Type 0
Log = List Event

-- What the calls and the attributes answer may depend on all that happened before. Times are counted
-- in a unit of the monotonic clock.
pub record Env (s : Seconds) : Type 0 where
  pub answer : Log → Call → Outcome (Unit {0})
  pub connection_open : Log → Bool
  pub channel_open : Log → ℕ → Bool
  pub now : Log → ℕ
  pub uniform : Log → s.T → s.T → s.T

-- What the constructor fixes.
pub record Settings (s : Seconds) : Type 0 where
  pub exchange : Value
  pub default_routing_key : Value
  pub channels : ℕ
  pub confirm_delivery : Bool
  pub queue_maxsize : ℕ
  pub heartbeat_interval : ℕ
  pub reconnect_retry_policy : RetryPolicy s

-- Where the thread is: there is none yet or it has ended; before the test of the stop event; before
-- the `get` of the queue.
pub data Place : Type 0 where
  absent at_head at_get : Place

-- `queue` holds requests and, as `none`, stop sentinels. `connected` says that `conn` is not None;
-- `channels`, `ch_index` and `next_heartbeat` are the locals of `_run`.
pub record Backend : Type 0 where
  pub queue : List (Option PublishRequest)
  pub stop_event : Bool
  pub place : Place
  pub connections_created : ℕ
  pub channels_created : ℕ
  pub reconnect_failures : ℕ
  pub connected : Bool
  pub channels : List ℕ
  pub ch_index : ℕ
  pub next_heartbeat : ℕ
  pub log : Log

module _ {s : Seconds} (env : Env s) where
  unfoldable pub call : Call → Action Backend (Unit {0})
  call c b = elim (env.answer b.log c) [
    | ok _ ↦ (ok tt, record b { log = did c ∷ b.log })
    | raised e ↦ (raised e, record b { log = failed c ∷ b.log })
  ]

unfoldable pub count : Counter → Action Backend (Unit {0})
count c b = (ok tt, record b { log = counted c ∷ b.log })

abbrev pub modify : (Backend → Backend) → Action Backend (Unit {0})
modify f b = (ok tt, f b)
