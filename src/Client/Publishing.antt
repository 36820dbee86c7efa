-- ===== src/Client/Publishing.antt =====
-- A client's pools at work: `publisher` and `close` of `RabbitMQClient` and the handles of src/mq_adapters/client.py,
-- on the pools of src/mq_adapters/publisher_pool.py and their threads.
pub mod Filed
pub mod Sound
pub mod Delivery
use rabbitmq_pika_adapter.Prelude.{
  ℕ, ◌≡◌, String, Bool, true, not, Option, none, some, List, [], ◌∷◌, ◌++◌, get_elem?, modify_at,
}
use rabbitmq_pika_adapter.Outcome.{Outcome, ok, raised}
use rabbitmq_pika_adapter.Retry.Floats.{Seconds}
use rabbitmq_pika_adapter.Retry.{RetryPolicy}
use rabbitmq_pika_adapter.Serializer.{Message}
use rabbitmq_pika_adapter.Backend.World.{Env, Settings}
use rabbitmq_pika_adapter.Backend.{is_full}
use rabbitmq_pika_adapter.Backend.Threads.{System, Step, initial}
use rabbitmq_pika_adapter.PublisherPool.{Config, Options, Pool, make_pool}
use rabbitmq_pika_adapter.PublisherPool.Operations.{
  backend_settings, start, send, stop, accepted_by,
}
use rabbitmq_pika_adapter.Client.{
  Client, new_client, Publisher, pooled, lightweight, lookup, publisher, close,
}

-- A pool that the client made, for which message type, and its backend.
pub record Entry : Type 0 where
  pub message_type : String
  pub pool : Pool
  pub system : System

-- `entries` are the pools by their numbers, the stopped ones too.
pub record World : Type 0 where
  pub client : Client
  pub entries : List Entry

unfoldable pub new_world : World
unfolding new_client
new_world = record { client = new_client; entries = [] }

abbrev pub pool_of : Publisher → ℕ
pool_of (pooled n) = n
pool_of (lightweight n) = n

-- What a caller does with a `SyncPublisher`.
pub data Use : Type 0 where
  starts stops : Use
  sends : Message → Option String → Use

abbrev pub added : String → Option ℕ → Outcome Pool → List Entry → List Entry
added t (some n) made entries = entries
added t none (raised e) entries = entries
added t none (ok p) entries =
    entries ++ record { message_type = t; pool = p; system = initial } ∷ []

-- `stop` of a pool raises nothing.
abbrev pub stops_fine : List (ℕ × Outcome (Unit {0})) → ℕ → Outcome (Unit {0})
stops_fine before n = ok tt

module _ (getenv : String → Option String) (config : Config) {s : Seconds} (env : Env s)
    (heartbeat_interval : ℕ) (policy : RetryPolicy s)
    (serializer : Message → Outcome (List ℕ)) where
  abbrev pub settings_of : Entry → Settings s
  settings_of e = backend_settings heartbeat_interval policy e.pool

  -- `publisher`
  unfoldable pub ask : String → String → Options → World → Outcome Publisher × World
  unfolding publisher lookup make_pool initial
  ask t backend o w =
      let (r, c) = publisher getenv config stops_fine t backend o w.client in
      (
        r,
        record {
          client = c;
          entries = added t (lookup t w.client.sync_pools) (make_pool getenv config t o) w.entries;
        },
      )

  -- A lightweight sender does not stop the pool that it shares.
  unfoldable pub used : Publisher → Use → Entry → Entry
  unfolding start send stop backend_settings
  used h starts e = record e {
    system = record e.system {
      backend = (start env (settings_of e) serializer e.system.backend).1;
    };
  }
  used h (sends m key) e = record e {
    system = record (accepted_by env (settings_of e) serializer (serializer m) key e.system) {
      backend = (send env (settings_of e) serializer m key e.system.backend).1;
    };
  }
  used (pooled n) stops e = record e {
    system = record e.system { backend = (stop env (settings_of e) serializer e.system.backend).1 };
  }
  used (lightweight n) stops e = e

  unfoldable pub stop_each : List (String × ℕ) → List Entry → List Entry
  unfolding used
  stop_each [] entries = entries
  stop_each ((t, n) ∷ rest) entries = stop_each rest (modify_at (used (pooled n) stops) n entries)

  -- `close`
  unfoldable pub close_pools : World → World
  unfolding close stop_each
  close_pools w = record {
    client = (close getenv config stops_fine w.client).1;
    entries = stop_each w.client.sync_pools w.entries;
  }

  -- Whether a `send` does not wait.
  unfoldable pub has_room : Use → Entry → Bool
  has_room (sends m key) e = not (is_full env (settings_of e) e.system.backend)
  has_room _ e = true

  -- Callers use the client and its handles while the threads of the pools do their steps.
  pub data ClientStep (w v : World) : Type 0 where
    asks : (t backend : String) (o : Options) → v ≡ (ask t backend o w).1 → ClientStep w v
    uses :
        (h : Publisher) (what : Use) (e : Entry)
        → get_elem? w.entries (pool_of h) ≡ some e
        → has_room what e ≡ true
        → v ≡ record w { entries = modify_at (used h what) (pool_of h) w.entries }
        → ClientStep w v
    runs :
        (n : ℕ) (e : Entry) (u : System)
        → get_elem? w.entries n ≡ some e
        → Step env (settings_of e) e.system u
        → v ≡ record w { entries = modify_at (λ e. record e { system = u }) n w.entries }
        → ClientStep w v
    closes : v ≡ close_pools w → ClientStep w v

  pub data ClientReach (w : World) : World → Type 0 where
    here : ClientReach w w
    next : {v u : World} → ClientReach w v → ClientStep v u → ClientReach w u
