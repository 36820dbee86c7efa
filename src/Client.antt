-- ===== src/Client.antt =====
-- The sync pools of `RabbitMQClient` in src/mq_adapters/client.py: making, sharing and closing them.
pub mod Pools
pub mod Facade
pub mod Adapters
pub mod Publishing
use rabbitmq_pika_adapter.Prelude.{
  ℕ, suc, String, Bool, true, false, Option, none, some, List, [], ◌∷◌, ◌++◌, str_eq, if◌then◌else◌,
}
use rabbitmq_pika_adapter.Outcome.{Exception, value_error, Outcome, ok, raised}
use rabbitmq_pika_adapter.PublisherPool.{Config, Options, Pool, make_pool}

-- `sync_pools` is the dict of pools by message type, in the order of insertion. Pools are numbered in
-- the order of their creation. `stops` are the calls of `pool.stop()` by `close` and how they ended.
pub record Client : Type 0 where
  pub sync_pools : List (String × ℕ)
  pub created : ℕ
  pub stops : List (ℕ × Outcome (Unit {0}))

-- `__init__`
unfoldable pub new_client : Client
new_client = record { sync_pools = []; created = 0; stops = [] }

-- Both are wrapped in a `SyncPublisher`; a lightweight sender does not stop its pool.
pub data Publisher : Type 0 where
  pooled lightweight : (pool : ℕ) → Publisher

-- `self._sync_pools[message_type]`
unfoldable pub lookup : String → List (String × ℕ) → Option ℕ
lookup t [] = none
lookup t ((u, pool) ∷ rest) = if str_eq u t then some pool else lookup t rest

abbrev pub handle : String → ℕ → Outcome Publisher
handle backend pool =
    if str_eq backend "pool"
    then ok (pooled pool)
    else if str_eq backend "lightweight_sender"
    then ok (lightweight pool)
    else raised value_error

abbrev pub failure : Outcome (Unit {0}) → List Exception
failure (ok _) = []
failure (raised e) = e ∷ []

-- `CloseError`
pub record CloseError : Type 0 where
  pub errors : List Exception

unfoldable pub raise_if_errors : List Exception → Option CloseError
raise_if_errors [] = none
raise_if_errors (e ∷ es) = some (record { errors = e ∷ es })

-- `stop_pool` is what `pool.stop()` answers, by the calls before.
module _ (getenv : String → Option String) (config : Config)
    (stop_pool : List (ℕ × Outcome (Unit {0})) → ℕ → Outcome (Unit {0})) where
  abbrev pub cached :
      String → String → Option ℕ → Outcome Pool → Client → Outcome Publisher × Client
  cached t backend (some pool) made c = (handle backend pool, c)
  cached t backend none (raised e) c = (raised e, c)
  cached t backend none (ok p) c = (
    handle backend c.created,
    record c { sync_pools = c.sync_pools ++ (t, c.created) ∷ []; created = suc c.created },
  )

  -- `publisher`
  unfoldable pub publisher : String → String → Options → Client → Outcome Publisher × Client
  unfolding lookup
  publisher t backend o c = cached t backend (lookup t c.sync_pools) (make_pool getenv config t o) c

  -- The loop of `close`, with the errors in order.
  unfoldable pub stop_all : List (String × ℕ) → Client → List Exception × Client
  stop_all [] c = ([], c)
  stop_all ((t, pool) ∷ rest) c =
      let r = stop_pool c.stops pool in
      let (errors, c') = stop_all rest (record c { stops = c.stops ++ (pool, r) ∷ [] }) in
      (failure r ++ errors, c')

  -- `close`; `none` where it returns
  unfoldable pub close : Client → Option CloseError × Client
  unfolding stop_all raise_if_errors
  close c =
      let (errors, c') = stop_all c.sync_pools c in
      (raise_if_errors errors, record c' { sync_pools = [] })

  pub data Operation : Type 0 where
    get_publisher : (message_type backend : String) → Options → Operation
    close_all : Operation

  unfoldable pub perform : Operation → Client → Client
  unfolding publisher close
  perform (get_publisher t backend o) c = (publisher t backend o c).1
  perform close_all c = (close c).1

  -- Callers may catch what an operation raises and go on.
  unfoldable pub run : List Operation → Client → Client
  unfolding perform
  run [] c = c
  run (op ∷ ops) c = run ops (perform op c)
