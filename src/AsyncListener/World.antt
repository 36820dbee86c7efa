-- ===== src/AsyncListener/World.antt =====
-- The messages of aio-pika, the state of `AsyncListener`, and its environment.
use rabbitmq_pika_adapter.Prelude.{ℕ, String, Bool, Option, none, some, List, ◌∷◌}
use rabbitmq_pika_adapter.Outcome.{Outcome, ok, raised, Action}
use rabbitmq_pika_adapter.Value.{Value, Fields, null}
use rabbitmq_pika_adapter.Prelude.Int.{ℤ}
use rabbitmq_pika_adapter.AsyncConnection.{Arguments, Source}
use rabbitmq_pika_adapter.Listener.Message.{Properties}

-- `tag` names the delivery.
pub record Message : Type 0 where
  pub tag : ℕ
  pub headers : Option Fields
  pub properties : Option Properties
  pub body : List ℕ

-- The arguments of the `aio_pika.Message` for the dead-letter queue.
pub record OutMessage : Type 0 where
  pub body : List ℕ
  pub headers : Option Fields
  pub app_id : Value
  pub content_type : Value
  pub content_encoding : Value
  pub correlation_id : Value
  pub reply_to : Value
  pub expiration : Value
  pub message_id : Value
  pub timestamp : Value
  pub message_type : Value
  pub user_id : Value
  pub priority : Value
  pub delivery_mode : Value

-- `getattr(msg_props, name, None) if msg_props is not None else None`
abbrev property_of : (Properties → Value) → Option Properties → Value
property_of f none = null
property_of f (some p) = f p

unfoldable pub out_message : Message → OutMessage
out_message m = record {
  body = m.body;
  headers = m.headers;
  app_id = property_of (λ p. p.app_id) m.properties;
  content_type = property_of (λ p. p.content_type) m.properties;
  content_encoding = property_of (λ p. p.content_encoding) m.properties;
  correlation_id = property_of (λ p. p.correlation_id) m.properties;
  reply_to = property_of (λ p. p.reply_to) m.properties;
  expiration = property_of (λ p. p.expiration) m.properties;
  message_id = property_of (λ p. p.message_id) m.properties;
  timestamp = property_of (λ p. p.timestamp) m.properties;
  message_type = property_of (λ p. p.message_type) m.properties;
  user_id = property_of (λ p. p.user_id) m.properties;
  priority = property_of (λ p. p.priority) m.properties;
  delivery_mode = property_of (λ p. p.delivery_mode) m.properties;
}

-- Calls of the connection factory, of aio-pika and of the user's callback.
pub data Call : Type 0 where
  connect : Option Arguments → Call
  open_channel : Call
  set_qos : (prefetch_count : ℤ) → Call
  declare_exchange : (name exchange_type : Value) (durable auto_delete : Bool) → Call
  declare_queue : (name : Value) (durable exclusive auto_delete : Bool) (arguments : Value) → Call
  bind : (routing_key : Value) → Call
  consume : (no_ack : Bool) → Call
  cancel_consumer : Call
  wait_for_tasks : Call
  close_channel : Call
  close_connection : Call
  user_callback : Message → Call
  ack : (tag : ℕ) → Call
  nack : (tag : ℕ) (requeue : Bool) → Call
  publish : OutMessage → (routing_key : String) → Call

pub data Event : Type 0 where
  did failed : Call → Event

-- The last event comes first.
abbrev pub Log : Type 0
Log = List Event

-- How a call ends may depend on all that happened before it. Each may be cancelled.
pub record Env : Type 0 where
  pub answer : Log → Call → Outcome (Unit {0})
  pub connection_closed : Log → Bool
  pub channel_closed : Log → Bool

-- `max_concurrency` is as `__init__` bounds it.
pub record Settings : Type 0 where
  pub source : Source
  pub predefined_queue : Bool
  pub prefetch_count : ℤ
  pub max_concurrency : ℕ
  pub auto_ack : Bool
  pub destination : Fields
  pub render : Value → String

-- The first four say which attributes are not None. `semaphore` is its counter, `none` for None.
-- `waiting` are the tasks before their `acquire`, `running` those that hold a permit.
pub record Listener : Type 0 where
  pub has_connection : Bool
  pub has_channel : Bool
  pub has_queue : Bool
  pub has_consumer : Bool
  pub semaphore : Option ℕ
  pub waiting : List Message
  pub running : List Message
  pub log : Log

unfoldable pub call : Env → Call → Action Listener (Unit {0})
call env c s = elim (env.answer s.log c) [
  | ok _ ↦ (ok tt, record s { log = did c ∷ s.log })
  | raised e ↦ (raised e, record s { log = failed c ∷ s.log })
]
