-- ===== src/Backend/Threads.antt =====
-- The publishing thread among the others: what may happen next, in any order.
use rabbitmq_pika_adapter.Prelude.{
  ℕ, ◌<◌, ◌≡◌, ◌≢◌, ◌⊎◌, String, false, Option, List, [], ◌∷◌, ◌++◌,
}
use rabbitmq_pika_adapter.Retry.Floats.{Seconds}
use rabbitmq_pika_adapter.Backend.World.{
  PublishRequest, Env, Settings, Backend, absent, at_head, at_get,
}
use rabbitmq_pika_adapter.Backend.{
  is_full, request, publish, push_sentinel, stop, start, head_phase, get_phase,
}

-- `accepted` are the requests that `publish` has put into the queue, in order.
pub record System : Type 0 where
  pub backend : Backend
  pub accepted : List PublishRequest

module _ {s : Seconds} (env : Env s) (settings : Settings s) where
  pub data Step (u v : System) : Type 0 where
    publishes :
        (body : List ℕ) (routing_key : Option String)
        → is_full env settings u.backend ≡ false
        → v ≡ record {
          backend = publish env settings body routing_key u.backend;
          accepted = u.accepted ++ request env settings body routing_key ∷ [];
        }
        → Step u v
    stops : v ≡ record u { backend = stop env settings u.backend } → Step u v
    -- The wait of `stop` for room ended in time; a `start` may have cleared the event in between.
    late_sentinel : v ≡ record u { backend = push_sentinel env settings u.backend } → Step u v
    starts : v ≡ record u { backend = start env settings u.backend } → Step u v
    passes_head :
        u.backend.place ≡ at_head
        → v ≡ record u { backend = head_phase env settings u.backend }
        → Step u v
    -- With no heartbeat the `get` waits for an item.
    gets_item :
        u.backend.place ≡ at_get
        → (u.backend.queue ≢ []) ⊎ (0 < settings.heartbeat_interval)
        → v ≡ record u { backend = get_phase env settings u.backend }
        → Step u v

  pub data Reach (u : System) : System → Type 0 where
    here : Reach u u
    next : {v w : System} → Reach u v → Step v w → Reach u w

-- The backend that `__init__` makes.
unfoldable pub initial : System
initial = record {
  backend = record {
    queue = [];
    stop_event = false;
    place = absent;
    connections_created = 0;
    channels_created = 0;
    reconnect_failures = 0;
    connected = false;
    channels = [];
    ch_index = 0;
    next_heartbeat = 0;
    log = [];
  };
  accepted = [];
}
