-- ===== src/PublisherPool/Delivery.antt =====
-- What is sent through a pool goes to its message type's destination, in order.
use rabbitmq_pika_adapter.Prelude.{
  ℕ, ◌≡◌, ◌≢◌, refl, ◌∙◌, ◌⊎◌, inl, inr, String, false, Option, none, some, List, [], ◌∷◌, ◌++◌,
  All, All-append, str_eq, Bool-cases, eq_iff,
}
use rabbitmq_pika_adapter.Outcome.{Outcome, ok, raised}
use rabbitmq_pika_adapter.Value.{Value, Fields, null, string, dict, get_or}
use rabbitmq_pika_adapter.Retry.Floats.{Seconds}
use rabbitmq_pika_adapter.Retry.{RetryPolicy}
use rabbitmq_pika_adapter.Serializer.{Message}
use rabbitmq_pika_adapter.Backend.World.{PublishRequest, Env, Settings}
use rabbitmq_pika_adapter.Backend.{is_full, request, or_default}
use rabbitmq_pika_adapter.Backend.Threads.{
  System, Step, publishes, late_sentinel, passes_head, gets_item, Reach, initial,
}
use rabbitmq_pika_adapter.Backend.Threads as Threads
use rabbitmq_pika_adapter.Backend.Order.{attempts, requests, published_in_order}
use rabbitmq_pika_adapter.PublisherPool.{
  Config, Options, Pool, make_pool, or_blank, resolve_destination,
}
use rabbitmq_pika_adapter.PublisherPool.Construction.{make_pool-IsMadeFrom}
use rabbitmq_pika_adapter.PublisherPool.Operations.{
  backend_settings, send_payload, start, send, stop, accepted_by, PoolStep, starts, sends, stops,
  backend_steps, PoolReach, here, next,
}

-- What the callers of a pool do are steps of its backend.
module _ {s : Seconds} (env : Env s) (settings : Settings s)
    (serializer : Message → Outcome (List ℕ)) where
  sent-Reach :
      (o : Outcome (List ℕ)) (key : Option String) {u v w : System}
      → Reach env settings u v
      → is_full env settings v.backend ≡ false
      → w ≡ record (accepted_by env settings serializer o key v) {
        backend = (send_payload env settings serializer o key v.backend).1;
      }
      → Reach env settings u w
  sent-Reach (raised x) key r room e = rw e r
  sent-Reach (ok payload) key r room e = Threads.next r (publishes payload key room e)

  PoolStep-Reach :
      {u v w : System}
      → Reach env settings u v
      → PoolStep env settings serializer v w
      → Reach env settings u w
  unfolding start send stop
  PoolStep-Reach r (starts e) = Threads.next r (Threads.starts e)
  PoolStep-Reach r (sends m key room e) = sent-Reach (serializer m) key r room e
  PoolStep-Reach r (stops e) = Threads.next r (Threads.stops e)
  PoolStep-Reach r (backend_steps step) = Threads.next r step

  pub PoolReach-Reach :
      {u v : System} → PoolReach env settings serializer u v → Reach env settings u v
  PoolReach-Reach here = Threads.here
  PoolReach-Reach (next r step) = PoolStep-Reach (PoolReach-Reach r) step

-- The request goes to the destination's exchange, under its routing key or the caller's.
abbrev pub IsAddressed : Fields → PublishRequest → Type 0
IsAddressed destination r =
    (r.exchange ≡ get_or "exchange_name" null destination)
    × ((r.routing_key ≡ or_blank (get_or "routing_key" null destination))
        ⊎ ((k : String) × (k ≢ "") × (r.routing_key ≡ string k)))

or_default-cases :
    (key : Option String) (default : Value)
    → (or_default key default ≡ default)
      ⊎ ((k : String) × (k ≢ "") × (or_default key default ≡ string k))
or_default-cases none default = inl refl
or_default-cases (some k) default = elim (Bool-cases (str_eq k "")) [
  | inl blank ↦ inl (rw blank refl)
  | inr given ↦ inr (k, (λ e. let b = (eq_iff k "").1 e in cc), rw given refl)
]

module _ {s : Seconds} (env : Env s) (settings : Settings s) (destination : Fields) where
  request-IsAddressed :
      settings.exchange ≡ get_or "exchange_name" null destination
      → settings.default_routing_key ≡ or_blank (get_or "routing_key" null destination)
      → (body : List ℕ) (key : Option String)
      → IsAddressed destination (request env settings body key)
  unfolding request
  request-IsAddressed e k body key = elim (or_default-cases key settings.default_routing_key) [
    | inl default ↦ (e, inl (default ∙ k))
    | inr given ↦ (e, inr given)
  ]

  accepted-IsAddressed :
      settings.exchange ≡ get_or "exchange_name" null destination
      → settings.default_routing_key ≡ or_blank (get_or "routing_key" null destination)
      → {u : System} → Reach env settings initial u
      → All (IsAddressed destination) u.accepted
  unfolding initial
  accepted-IsAddressed e k Threads.here = tt
  accepted-IsAddressed e k (Threads.next {v} r (publishes body key room h)) = rw h (
      All-append (IsAddressed destination) v.accepted (request env settings body key ∷ [])
        (accepted-IsAddressed e k r) (request-IsAddressed e k body key, tt))
  accepted-IsAddressed e k (Threads.next r (Threads.stops h)) = rw h (accepted-IsAddressed e k r)
  accepted-IsAddressed e k (Threads.next r (late_sentinel h)) = rw h (accepted-IsAddressed e k r)
  accepted-IsAddressed e k (Threads.next r (Threads.starts h)) = rw h (accepted-IsAddressed e k r)
  accepted-IsAddressed e k (Threads.next r (passes_head at h)) = rw h (accepted-IsAddressed e k r)
  accepted-IsAddressed e k (Threads.next r (gets_item at waits h)) =
      rw h (accepted-IsAddressed e k r)

module _ (getenv : String → Option String) {s : Seconds} (env : Env s) (heartbeat_interval : ℕ)
    (policy : RetryPolicy s) (serializer : Message → Outcome (List ℕ)) where
  -- For a pool that could be made, however it is used, whatever its backend's thread does and however the
  -- calls end: what was passed to `basic_publish`, followed by what waits, is what was sent, in the same
  -- order, and all of it goes to the exchange of the pool's message type, under that type's routing key or
  -- one that a caller gave.
  pub pool_delivers :
      (c : Config) (message_type : String) (o : Options) {p : Pool} {u : System}
      → make_pool getenv c message_type o ≡ ok p
      → PoolReach env (backend_settings heartbeat_interval policy p) serializer initial u
      → (attempts u.backend.log ++ requests u.backend.queue ≡ u.accepted)
        × ((destination : Fields) × (resolve_destination c message_type ≡ ok (dict destination))
            × All (IsAddressed destination) u.accepted)
  unfolding backend_settings
  pool_delivers c message_type o {p} made r =
      let settings = backend_settings heartbeat_interval policy p in
      let from = make_pool-IsMadeFrom getenv c message_type o made in
      let reached = PoolReach-Reach env settings serializer r in
      (
        published_in_order env settings from.some_channel reached,
        (
          from.destination,
          from.found,
          accepted-IsAddressed env settings from.destination from.exchange_is from.routing_key_is
              reached,
        ),
      )
