-- ===== src/PublisherPool/Operations.antt =====
-- `start`, `send` and `stop` of `PublisherPool` in src/mq_adapters/publisher_pool.py, on its backend.
use rabbitmq_pika_adapter.Prelude.{ℕ, ◌≡◌, String, false, Option, List, [], ◌∷◌, ◌++◌}
use rabbitmq_pika_adapter.Outcome.{Outcome, ok, raised, Action}
use rabbitmq_pika_adapter.Retry.Floats.{Seconds}
use rabbitmq_pika_adapter.Retry.{RetryPolicy}
use rabbitmq_pika_adapter.Serializer.{Message}
use rabbitmq_pika_adapter.Backend.World.{Env, Settings, Backend}
use rabbitmq_pika_adapter.Backend.{is_full, request, publish}
use rabbitmq_pika_adapter.Backend as Backend
use rabbitmq_pika_adapter.Backend.Threads.{System, Step}
use rabbitmq_pika_adapter.PublisherPool.{Pool}

-- The backend that `__init__` makes. `heartbeat_interval` and `reconnect_retry_policy` are the backend's own
-- defaults or the caller's.
unfoldable pub backend_settings : {s : Seconds} → ℕ → RetryPolicy s → Pool → Settings s
backend_settings heartbeat_interval policy pool = record {
  exchange = pool.exchange;
  default_routing_key = pool.default_routing_key;
  channels = pool.channels;
  confirm_delivery = pool.confirm_delivery;
  queue_maxsize = pool.queue_maxsize;
  heartbeat_interval = heartbeat_interval;
  reconnect_retry_policy = policy;
}

module _ {s : Seconds} (env : Env s) (settings : Settings s)
    (serializer : Message → Outcome (List ℕ)) where
  abbrev pub Do : Type 0
  Do = Action Backend (Unit {0})

  unfoldable pub start : Do
  unfolding Backend.start
  start b = (ok tt, Backend.start env settings b)

  abbrev pub send_payload : Outcome (List ℕ) → Option String → Do
  send_payload (raised e) routing_key b = (raised e, b)
  send_payload (ok payload) routing_key b = (ok tt, publish env settings payload routing_key b)

  -- `send`, when the backend's queue has room
  unfoldable pub send : Message → Option String → Do
  unfolding publish
  send message routing_key = send_payload (serializer message) routing_key

  unfoldable pub stop : Do
  unfolding Backend.stop
  stop b = (ok tt, Backend.stop env settings b)

  abbrev pub accepted_by : Outcome (List ℕ) → Option String → System → System
  accepted_by (raised e) routing_key u = u
  accepted_by (ok payload) routing_key u = record u {
    accepted = u.accepted ++ request env settings payload routing_key ∷ [];
  }

  -- Callers use the pool while the backend's thread does its steps.
  pub data PoolStep (u v : System) : Type 0 where
    starts : v ≡ record u { backend = (start u.backend).1 } → PoolStep u v
    sends :
        (message : Message) (routing_key : Option String)
        → is_full env settings u.backend ≡ false
        → v ≡ record (accepted_by (serializer message) routing_key u) {
          backend = (send message routing_key u.backend).1;
        }
        → PoolStep u v
    stops : v ≡ record u { backend = (stop u.backend).1 } → PoolStep u v
    backend_steps : Step env settings u v → PoolStep u v

  pub data PoolReach (u : System) : System → Type 0 where
    here : PoolReach u u
    next : {v w : System} → PoolReach u v → PoolStep v w → PoolReach u w
