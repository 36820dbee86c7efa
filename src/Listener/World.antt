-- ===== src/Listener/World.antt =====
-- The listener's mutable state, its environment and the log.
use rabbitmq_pika_adapter.Prelude.{ℕ, String, Bool, Option, List, ◌∷◌}
use rabbitmq_pika_adapter.Outcome.{Outcome, ok, raised, Action}
use rabbitmq_pika_adapter.Stats.{Counter}
use rabbitmq_pika_adapter.Value.{Value, Fields}
use rabbitmq_pika_adapter.Listener.Message.{Properties, Delivery, Job}

-- Calls of the user's callback, of pika and of the executor.
pub data Call : Type 0 where
  user_callback : Delivery → Call
  basic_ack : (tag : ℕ) → Call
  basic_nack : (tag : ℕ) (requeue : Bool) → Call
  basic_publish :
      (exchange routing_key : String) (body : List ℕ) (properties : Option Properties) → Call
  basic_properties : Properties → Call
  add_callback_threadsafe : Job → Call
  submit_task : Delivery → Call

-- A call that returned, one that raised, and `stats.inc`.
pub data Event : Type 0 where
  did failed : Call → Event
  counted : Counter → Event

-- The last event comes first.
abbrev pub Log : Type 0
Log = List Event

-- How a call ends may depend on all that happened before it.
pub record Env : Type 0 where
  pub answer : Log → Call → Outcome (Unit {0})
  -- `self.__connection and getattr(self.__connection, 'is_open', False)`
  pub connection_open : Log → Bool

-- What the constructor fixes. `render` is `str` on values that are no text.
pub record Settings : Type 0 where
  pub auto_ack : Bool
  pub offload : Bool
  pub destination : Fields
  pub render : Value → String

-- `permits` is the semaphore's counter, `running` the tasks in the executor, `finished` those whose
-- callback has ended and whose `_on_done` has not run, `scheduled` the connection's pending jobs.
pub record Listener : Type 0 where
  pub stop_me : Bool
  pub permits : ℕ
  pub running : List Delivery
  pub finished : List (Delivery × Outcome (Unit {0}))
  pub scheduled : List Job
  pub log : Log

unfoldable pub call : Env → Call → Action Listener (Unit {0})
call env c s = elim (env.answer s.log c) [
  | ok _ ↦ (ok tt, record s { log = did c ∷ s.log })
  | raised e ↦ (raised e, record s { log = failed c ∷ s.log })
]

unfoldable pub count : Counter → Action Listener (Unit {0})
count c s = (ok tt, record s { log = counted c ∷ s.log })
