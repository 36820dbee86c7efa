-- ===== src/Client/Adapters.antt =====
-- How the adapters of one client fit together, and what `aclose` does.
use rabbitmq_pika_adapter.Prelude.{
  ℕ, String, Bool, ◌≡◌, refl, sym, ◌∙◌, Option, none, List, [], ◌∷◌, str_eq, arith, Bool-cases, inl,
  inr,
}
use rabbitmq_pika_adapter.Outcome.{Outcome, ok, ok_inj}
use rabbitmq_pika_adapter.Value.{Fields, dict}
use rabbitmq_pika_adapter.Retry.Floats.{Seconds}
use rabbitmq_pika_adapter.PublisherPool.{Pool, make_pool, resolve_destination}
use rabbitmq_pika_adapter.PublisherPool as Pool
use rabbitmq_pika_adapter.PublisherPool.Construction.{make_pool-IsMadeFrom}
use rabbitmq_pika_adapter.Session.Limits.{make_listener-IsMadeFrom}
use rabbitmq_pika_adapter.Session.Construction as SyncListener
use rabbitmq_pika_adapter.AsyncSender.World.{Env}
use rabbitmq_pika_adapter.AsyncSender.{of_destination, default_key}
use rabbitmq_pika_adapter.AsyncSender.Construction.{make_sender, make_sender-found}
use rabbitmq_pika_adapter.AsyncSender.Construction as Sender
use rabbitmq_pika_adapter.AsyncListener.Construction.{
  make_async_listener, make_async_listener-found,
}
use rabbitmq_pika_adapter.AsyncListener.Construction as AsyncListener
use rabbitmq_pika_adapter.Client.Facade.{
  Facade, new_facade, Shared, async_config, listener, async_publisher, async_listener, aclose,
  stop_async_pools, Operation, get_publisher, get_listener, get_async_publisher, get_async_listener,
  close_sync, close_async, perform, run,
}

module _ (getenv : String → Option String) (shared : Shared) (available installed : Bool)
    (stop_pool stop_async : List (ℕ × Outcome (Unit {0})) → ℕ → Outcome (Unit {0}))
    (s : Seconds) where
  abbrev Perform :
      Operation getenv shared available installed stop_pool stop_async s → Facade → Facade
  Perform = perform getenv shared available installed stop_pool stop_async s

  -- There are no async pools, and none was stopped.
  abbrev NoneStopped : Facade → Type 0
  NoneStopped f = (f.async_pools ≡ []) × (f.async_stops ≡ [])

  stop_nothing :
      (pools : List (String × ℕ)) (f : Facade)
      → pools ≡ []
      → stop_async_pools getenv shared available installed stop_pool stop_async s pools f ≡ ([], f)
  unfolding stop_async_pools
  stop_nothing pools f e = rw e refl

  aclose-NoneStopped :
      (f : Facade)
      → NoneStopped f
      → let (error, f') = aclose getenv shared available installed stop_pool stop_async s f in
        (error ≡ none) × NoneStopped f'
  unfolding aclose
  aclose-NoneStopped f (p, q) = rw (stop_nothing f.async_pools f p) (refl, (refl, q))

  perform-NoneStopped :
      (op : Operation getenv shared available installed stop_pool stop_async s) (f : Facade)
      → NoneStopped f
      → NoneStopped (Perform op f)
  unfolding perform
  perform-NoneStopped (get_publisher t backend o) f h = h
  perform-NoneStopped (get_listener t o) f h = h
  perform-NoneStopped (get_async_publisher t backend o) f h = h
  perform-NoneStopped (get_async_listener t o) f h = h
  perform-NoneStopped close_sync f h = h
  perform-NoneStopped close_async f h = (aclose-NoneStopped f h).1

  run-NoneStopped :
      (ops : List (Operation getenv shared available installed stop_pool stop_async s)) (f : Facade)
      → NoneStopped f
      → NoneStopped (run getenv shared available installed stop_pool stop_async s ops f)
  unfolding run
  run-NoneStopped [] f h = h
  run-NoneStopped (op ∷ ops) f h = run-NoneStopped ops (Perform op f) (perform-NoneStopped op f h)

  -- After any sequence of operations of a client, those that make async adapters included, `aclose` calls
  -- `stop` on nothing, and returns.
  pub aclose-stops_nothing :
      (ops : List (Operation getenv shared available installed stop_pool stop_async s))
      → let f = run getenv shared available installed stop_pool stop_async s ops new_facade in
        let (error, f') = aclose getenv shared available installed stop_pool stop_async s f in
        (error ≡ none) × (f'.async_stops ≡ [])
  unfolding new_facade
  aclose-stops_nothing ops =
      let f = run getenv shared available installed stop_pool stop_async s ops new_facade in
      let (returned, (pools, stops)) =
        aclose-NoneStopped f (run-NoneStopped ops new_facade (refl, refl)) in
      (returned, stops)

  -- Both kinds of adapters look a message type up in the same parameters.
  same_destination :
      (message_type : String)
      → resolve_destination (async_config shared) message_type
        ≡ resolve_destination shared.sync_config message_type
  unfolding resolve_destination
  same_destination message_type = refl

  async_publisher-found :
      (message_type backend : String) (o : Sender.Options s) {m : Sender.Made s}
      → async_publisher getenv shared available installed stop_pool stop_async s message_type
          backend o
        ≡ ok m
      → (resolve_destination shared.sync_config message_type ≡ ok m.destination)
        × ((f : Fields) → (m.settings f).destination ≡ f)
  unfolding async_publisher
  async_publisher-found message_type backend o h = elim (Bool-cases available) [
    | inl a ↦ elim (Bool-cases (str_eq backend "sender")) [
      | inl b ↦
          let (found, kept) =
            make_sender-found installed (async_config shared) message_type o (rw (a, b) at h) in
          (sym (same_destination message_type) ∙ found, kept)
      | inr b ↦ absurd (ground arith)
    ]
    | inr a ↦ absurd (ground arith)
  ]

  async_listener-found :
      (message_type : String) (o : AsyncListener.Options) {m : AsyncListener.Made}
      → async_listener getenv shared available installed stop_pool stop_async s message_type o
        ≡ ok m
      → resolve_destination shared.sync_config message_type ≡ ok m.destination
  unfolding async_listener
  async_listener-found message_type o h = elim (Bool-cases available) [
    | inl a ↦
        sym (same_destination message_type)
        ∙ make_async_listener-found installed (async_config shared) message_type o (rw a at h)
    | inr a ↦ absurd (ground arith)
  ]

  -- The adapters of one message type have one destination, and what either kind of publisher reads in it is the
  -- same.
  pub record Agree (env : Env s) (p : Pool) (l : SyncListener.Made) (m : Sender.Made s)
      (a : AsyncListener.Made) : Type 0 where
    pub destination : Fields
    pub of_listener : l.destination ≡ dict destination
    pub of_sender : m.destination ≡ dict destination
    pub of_async_listener : a.destination ≡ dict destination
    pub same_exchange : of_destination env (m.settings destination) "exchange_name" ≡ p.exchange
    pub same_routing_key : default_key env (m.settings destination) ≡ p.default_routing_key

  -- Whatever the options, the sync and the async publisher and the sync and the async listener that a client
  -- makes for one message type have one destination, and the publishers use the same exchange and the same
  -- default routing key.
  pub adapters-Agree :
      (env : Env s) (message_type backend : String) (po : Pool.Options) (lo : SyncListener.Options)
      (so : Sender.Options s) (ao : AsyncListener.Options) {p : Pool} {l : SyncListener.Made}
      {m : Sender.Made s} {a : AsyncListener.Made}
      → make_pool getenv shared.sync_config message_type po ≡ ok p
      → listener getenv shared available installed stop_pool stop_async s message_type lo ≡ ok l
      → async_publisher getenv shared available installed stop_pool stop_async s message_type
          backend so
        ≡ ok m
      → async_listener getenv shared available installed stop_pool stop_async s message_type ao
        ≡ ok a
      → Agree env p l m a
  unfolding listener
  adapters-Agree env message_type backend po lo so ao {p} {l} {m} {a} made listens sends receives =
      let pool = make_pool-IsMadeFrom getenv shared.sync_config message_type po made in
      let sync = make_listener-IsMadeFrom getenv shared.sync_config message_type lo listens in
      let (found, kept) = async_publisher-found message_type backend so sends in
      let d = pool.destination in
      record {
        destination = d;
        of_listener = ok_inj (sym sync.found ∙ pool.found);
        of_sender = ok_inj (sym found ∙ pool.found);
        of_async_listener =
            ok_inj (sym (async_listener-found message_type ao receives) ∙ pool.found);
        same_exchange = rw (kept d) (sym pool.exchange_is);
        same_routing_key = rw (kept d) (sym pool.routing_key_is);
      }
