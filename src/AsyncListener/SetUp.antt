-- ===== src/AsyncListener/SetUp.antt =====
-- What `start` of `AsyncListener` has set up, and its limit on callbacks.
use rabbitmq_pika_adapter.Prelude.{
  ◌≤◌, ◌≡◌, refl, sym, ap, ◌∙◌, ◌⊎◌, inl, inr, true, false, ◌&&◌, Option, none, some, ◌∷◌, arith,
  Bool-cases, if◌then◌else◌,
}
use mathlib.Core.Path.{subst}
use rabbitmq_pika_adapter.Prelude.Int.{ℤ}
use rabbitmq_pika_adapter.Outcome.{Outcome, ok, and_then, ◌>>◌}
use rabbitmq_pika_adapter.Outcome.Returns.{then-returns, returns_too}
use rabbitmq_pika_adapter.Value.{string, truthy}
use rabbitmq_pika_adapter.AsyncConnection.{target}
use rabbitmq_pika_adapter.AsyncListener.World.{
  Call, open_channel, declare_exchange, declare_queue, bind, consume, did, Log, Env, Settings,
  Listener, call,
}
use rabbitmq_pika_adapter.AsyncListener.Lifecycle.{
  Do, modify, connect_to, of_destination, flag, or_value, queue_arguments, declare_its_queue,
  set_prefetch, set_up, connected, start, max_concurrency,
}

-- At least one callback may run, whatever the constructor is given.
pub max_concurrency-positive :
    (given : Option ℤ) (prefetch_count : ℤ) → 1 ≤ max_concurrency given prefetch_count
unfolding max_concurrency
max_concurrency-positive none prefetch_count = ground arith
max_concurrency-positive (some n) prefetch_count = ground arith

module _ (env : Env) (settings : Settings) where
  call_then :
      (c : Call) (n : Do env settings) (s : Listener)
      → ((call env c >> n) s).0 ≡ ok tt
      → (call env c >> n) s ≡ n (record s { log = did c ∷ s.log })
  unfolding call
  call_then c n s h = ground arith

  abbrev pub exchange_declared : Call
  exchange_declared =
      declare_exchange (of_destination env settings "exchange_name")
        (of_destination env settings "exchange_type") (flag env settings "exchange_durable" true)
        (flag env settings "exchange_auto_delete" false)

  abbrev pub queue_declared : Call
  queue_declared =
      if settings.predefined_queue && truthy (of_destination env settings "predefined_queue_name")
      then declare_queue (of_destination env settings "predefined_queue_name")
          (flag env settings "queue_durable" true) false
          (flag env settings "queue_auto_delete" false) (queue_arguments env settings)
      else declare_queue (string "") false true true (queue_arguments env settings)

  abbrev pub bound : Call
  bound = bind (or_value env settings (of_destination env settings "routing_key") (string ""))

  -- A consumer on a queue that is bound to the exchange, and a permit for each callback.
  pub record IsConsuming (s : Listener) : Type 0 where
    pub connection : s.has_connection ≡ true
    pub channel : s.has_channel ≡ true
    pub queue : s.has_queue ≡ true
    pub consumer : s.has_consumer ≡ true
    pub permits : s.semaphore ≡ some settings.max_concurrency
    pub set_up_log :
        (before : Log) × (s.log
          ≡ did (consume settings.auto_ack)
            ∷ did bound
            ∷ did queue_declared
            ∷ did exchange_declared
            ∷ before)

  abbrev with_consumer : Do env settings
  with_consumer =
      call env (consume settings.auto_ack)
      >> modify env settings (λ s. record s { has_consumer = true })

  abbrev with_binding : Do env settings
  with_binding =
      call env bound
      >> (modify env settings
            (λ s. record s { has_queue = true; semaphore = some settings.max_concurrency })
          >> with_consumer)

  declare_its_queue-call :
      (s : Listener) → declare_its_queue env settings s ≡ call env queue_declared s
  unfolding declare_its_queue
  declare_its_queue-call s =
      elim (Bool-cases (
        settings.predefined_queue
        && truthy (of_destination env settings "predefined_queue_name"))) [
          | inl named ↦ rw named refl
          | inr anonymous ↦ rw anonymous refl
        ]

  abbrev Opened : Listener → Type 0
  Opened s = (s.has_connection ≡ true) × (s.has_channel ≡ true)

  with_binding_ok :
      (s : Listener)
      → (with_binding s).0 ≡ ok tt
      → (with_binding s).1 ≡ record s {
        has_queue = true;
        semaphore = some settings.max_concurrency;
        has_consumer = true;
        log = did (consume settings.auto_ack) ∷ did bound ∷ s.log;
      }
  unfolding call
  with_binding_ok s h = ground arith

  abbrev with_queue : Do env settings
  with_queue = declare_its_queue env settings >> with_binding

  abbrev with_exchange : Do env settings
  with_exchange = call env exchange_declared >> with_queue

  abbrev all_set : Listener → Listener
  all_set s = record s {
    has_queue = true;
    semaphore = some settings.max_concurrency;
    has_consumer = true;
    log =
        did (consume settings.auto_ack)
        ∷ did bound
        ∷ did queue_declared
        ∷ did exchange_declared
        ∷ s.log;
  }

  with_queue_ok :
      (s : Listener)
      → (with_queue s).0 ≡ ok tt
      → with_queue s ≡ with_binding (record s { log = did queue_declared ∷ s.log })
  with_queue_ok s h =
      let as_call =
        ap (λ (r : Outcome (Unit {0}) × Listener). and_then r.0 (λ _. with_binding) r.1)
          (declare_its_queue-call s) in
      as_call ∙ call_then queue_declared with_binding s (returns_too as_call h)

  with_exchange_ok : (s : Listener) → (with_exchange s).0 ≡ ok tt → (with_exchange s).1 ≡ all_set s
  with_exchange_ok s h =
      let s1 = record s { log = did exchange_declared ∷ s.log } in
      let s2 = record s1 { log = did queue_declared ∷ s1.log } in
      let first = call_then exchange_declared with_queue s h in
      let second = first ∙ with_queue_ok s1 (returns_too first h) in
      ap (λ (r : Outcome (Unit {0}) × Listener). r.1) second
      ∙ with_binding_ok s2 (returns_too second h)

  all_set-IsConsuming :
      (s : Listener) → s.has_connection ≡ true → s.has_channel ≡ true → IsConsuming (all_set s)
  all_set-IsConsuming s c o = record {
    connection = c;
    channel = o;
    queue = refl;
    consumer = refl;
    permits = refl;
    set_up_log = (s.log, refl);
  }

  set_prefetch-kept :
      (s : Listener)
      → let t = (set_prefetch env settings s).1 in
        (t.has_connection ≡ s.has_connection) × (t.has_channel ≡ s.has_channel)
  unfolding call
  set_prefetch-kept s = ground arith

  set_up_ok :
      (s : Listener)
      → s.has_connection ≡ true
      → (set_up env settings s).0 ≡ ok tt
      → IsConsuming (set_up env settings s).1
  unfolding set_up
  set_up_ok s there h =
      let channelled = modify env settings (λ (v : Listener). record v { has_channel = true }) in
      let rest = set_prefetch env settings >> with_exchange in
      let s1 = record s { has_channel = true; log = did open_channel ∷ s.log } in
      let opened = call_then open_channel (channelled >> rest) s h in
      let (fine, prefetched) =
        then-returns (set_prefetch env settings) with_exchange s1 (returns_too opened h) in
      let s2 = (set_prefetch env settings s1).1 in
      let (same_connection, same_channel) = set_prefetch-kept s1 in
      let whole = opened ∙ prefetched in
      let done =
        ap (λ (r : Outcome (Unit {0}) × Listener). r.1) whole
        ∙ with_exchange_ok s2 (returns_too whole h) in
      subst IsConsuming (sym done) (all_set-IsConsuming s2 (same_connection ∙ there) same_channel)

  abbrev connects : Do env settings
  connects = connect_to env settings (target settings.source)

  abbrev kept_connection : Do env settings
  kept_connection = modify env settings (λ s. record s { has_connection = true })

  from_closed :
      (s : Listener)
      → ((connects >> (kept_connection >> set_up env settings)) s).0 ≡ ok tt
      → IsConsuming ((connects >> (kept_connection >> set_up env settings)) s).1
  from_closed s h =
      let (fine, rest) = then-returns connects (kept_connection >> set_up env settings) s h in
      let s1 = record ((connects s).1) { has_connection = true } in
      subst (λ (r : Outcome (Unit {0}) × Listener). IsConsuming r.1) (sym rest)
        (set_up_ok s1 refl (returns_too rest h))

  -- A `start` that returns has left a listener alone that had an open connection; any other listener now
  -- has a connection, a channel and a full semaphore, and it consumes, with the acknowledgement mode of the
  -- settings, from the queue that it declared and bound to the exchange, all in this order.
  pub start-IsConsuming :
      (s : Listener)
      → (start env settings s).0 ≡ ok tt
      → let t = (start env settings s).1 in
        ((connected env settings s ≡ true) × (t ≡ s))
        ⊎ ((connected env settings s ≡ false) × IsConsuming t)
  unfolding start
  start-IsConsuming s h = elim (Bool-cases (connected env settings s)) [
    | inl open_already ↦ inl (open_already, rw open_already refl)
    | inr closed ↦ inr (closed, rw closed (from_closed s (rw closed at h)))
  ]
