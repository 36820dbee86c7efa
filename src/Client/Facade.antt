-- ===== src/Client/Facade.antt =====
-- The rest of `RabbitMQClient` in src/mq_adapters/client.py: listeners, async adapters, and `aclose`.
use rabbitmq_pika_adapter.Prelude.{
  String, Bool, not, Option, List, [], ◌∷◌, ◌++◌, ℕ, str_eq, if◌then◌else◌,
}
use rabbitmq_pika_adapter.Outcome.{Exception, value_error, runtime_error, Outcome, raised}
use rabbitmq_pika_adapter.Retry.Floats.{Seconds}
use rabbitmq_pika_adapter.PublisherPool.{Config}
use rabbitmq_pika_adapter.Session.Construction.{make_listener}
use rabbitmq_pika_adapter.Session.Construction as SyncListener
use rabbitmq_pika_adapter.AsyncSender.Construction.{make_sender}
use rabbitmq_pika_adapter.AsyncSender.Construction as Sender
use rabbitmq_pika_adapter.AsyncListener.Construction.{make_async_listener}
use rabbitmq_pika_adapter.AsyncListener.Construction as AsyncListener
use rabbitmq_pika_adapter.Client.{
  Client, new_client, failure, CloseError, raise_if_errors, publisher, close,
}
use rabbitmq_pika_adapter.PublisherPool as Pool

-- `async_pools` is the dict by message type. `async_stops` are the calls of `pool.stop()` by `aclose`.
pub record Facade : Type 0 where
  pub client : Client
  pub async_pools : List (String × ℕ)
  pub async_stops : List (ℕ × Outcome (Unit {0}))

-- `__init__`
unfoldable pub new_facade : Facade
unfolding new_client
new_facade = record { client = new_client; async_pools = []; async_stops = [] }

-- What `__init__` is given. Both kinds of adapters share the parameters and the map.
pub record Shared : Type 0 where
  pub sync_config : Config
  pub has_async_factory : Bool

abbrev pub async_config : Shared → Config
async_config g = record g.sync_config { has_factory = g.has_async_factory }

-- `available` says that the async module could be imported, `installed` that aio-pika can be.
-- `stop_async` is what `await pool.stop()` answers, by the calls before.
module _ (getenv : String → Option String) (shared : Shared) (available installed : Bool)
    (stop_pool stop_async : List (ℕ × Outcome (Unit {0})) → ℕ → Outcome (Unit {0}))
    (s : Seconds) where
  unfoldable pub listener : String → SyncListener.Options → Outcome SyncListener.Made
  unfolding make_listener
  listener message_type o = make_listener getenv shared.sync_config message_type o

  unfoldable pub async_publisher : String → String → Sender.Options s → Outcome (Sender.Made s)
  unfolding make_sender
  async_publisher message_type backend o =
      if not available
      then raised runtime_error
      else if not (str_eq backend "sender")
      then raised value_error
      else make_sender installed (async_config shared) message_type o

  unfoldable pub async_listener : String → AsyncListener.Options → Outcome AsyncListener.Made
  unfolding make_async_listener
  async_listener message_type o =
      if not available
      then raised runtime_error
      else make_async_listener installed (async_config shared) message_type o

  -- The loop of `aclose`, with the errors in order.
  unfoldable pub stop_async_pools : List (String × ℕ) → Facade → List Exception × Facade
  stop_async_pools [] f = ([], f)
  stop_async_pools ((t, pool) ∷ rest) f =
      let r = stop_async f.async_stops pool in
      let (errors, f') =
        stop_async_pools rest (record f { async_stops = f.async_stops ++ (pool, r) ∷ [] }) in
      (failure r ++ errors, f')

  -- `aclose`; `none` where it returns
  unfoldable pub aclose : Facade → Option CloseError × Facade
  unfolding stop_async_pools raise_if_errors
  aclose f =
      let (errors, f') = stop_async_pools f.async_pools f in
      (raise_if_errors errors, record f' { async_pools = [] })

  pub data Operation : Type 0 where
    get_publisher : (message_type backend : String) → Pool.Options → Operation
    get_listener : (message_type : String) → SyncListener.Options → Operation
    get_async_publisher : (message_type backend : String) → Sender.Options s → Operation
    get_async_listener : (message_type : String) → AsyncListener.Options → Operation
    close_sync close_async : Operation

  -- Listeners and async adapters are handed out; the client keeps nothing of them.
  unfoldable pub perform : Operation → Facade → Facade
  unfolding publisher close aclose
  perform (get_publisher t backend o) f = record f {
    client = (publisher getenv shared.sync_config stop_pool t backend o f.client).1;
  }
  perform (get_listener t o) f = f
  perform (get_async_publisher t backend o) f = f
  perform (get_async_listener t o) f = f
  perform close_sync f = record f {
    client = (close getenv shared.sync_config stop_pool f.client).1;
  }
  perform close_async f = (aclose f).1

  unfoldable pub run : List Operation → Facade → Facade
  unfolding perform
  run [] f = f
  run (op ∷ ops) f = run ops (perform op f)
