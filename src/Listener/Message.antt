-- ===== src/Listener/Message.antt =====
-- Messages as pika hands them over, and the jobs that settle them.
use rabbitmq_pika_adapter.Prelude.{ℕ, Option, List}
use rabbitmq_pika_adapter.Prelude.Int.{ℤ}
use rabbitmq_pika_adapter.Value.{Value, Fields}
use rabbitmq_pika_adapter.DeadLettering.{DeadLetteringConfig}

-- The attributes that are read with `getattr(properties, name, None)`.
pub record Properties : Type 0 where
  pub content_type : Value
  pub content_encoding : Value
  pub headers : Option Fields
  pub delivery_mode : Value
  pub priority : Value
  pub correlation_id : Value
  pub reply_to : Value
  pub expiration : Value
  pub message_id : Value
  pub timestamp : Value
  pub message_type : Value
  pub user_id : Value
  pub app_id : Value
  pub cluster_id : Value

-- The arguments of the new `BasicProperties` for the dead-letter queue.
unfoldable pub copy_properties : Properties → Properties
copy_properties p = record {
  content_type = p.content_type;
  content_encoding = p.content_encoding;
  headers = p.headers;
  delivery_mode = p.delivery_mode;
  priority = p.priority;
  correlation_id = p.correlation_id;
  reply_to = p.reply_to;
  expiration = p.expiration;
  message_id = p.message_id;
  timestamp = p.timestamp;
  message_type = p.message_type;
  user_id = p.user_id;
  app_id = p.app_id;
  cluster_id = p.cluster_id;
}

-- The arguments of a message callback; the channel is the listener's.
pub record Delivery : Type 0 where
  pub delivery_tag : Option ℕ
  pub properties : Option Properties
  pub body : List ℕ

-- What `_on_done` schedules on the connection's thread.
pub data Job : Type 0 where
  ack_job : (tag : ℕ) → Job
  fail_job : (tag : ℕ) (d : Delivery) (cfg : DeadLetteringConfig) (attempt : ℤ) → Job
