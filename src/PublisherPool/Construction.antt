-- ===== src/PublisherPool/Construction.antt =====
-- What a pool that could be made is made of.
use rabbitmq_pika_adapter.Prelude.{◌≤◌, ◌≡◌, refl, String, Option, arith}
use rabbitmq_pika_adapter.Prelude.Int.{ℤ}
use rabbitmq_pika_adapter.Outcome.{Outcome, ok, raised}
use rabbitmq_pika_adapter.Value.{
  Value, Fields, null, boolean, integer, string, opaque, array, dict, get_or,
}
use rabbitmq_pika_adapter.PublisherPool.{
  Factory, Config, Options, Pool, resolve_destination, resolve_factory, make_pool, or_blank,
  at_destination, describe, assemble, one_at_least,
}

one-le-one_at_least : (n : ℤ) → 1 ≤ one_at_least n
one-le-one_at_least n = ground arith

module _ (getenv : String → Option String) where
  pub record IsMadeFrom (c : Config) (message_type : String) (o : Options) (p : Pool) : Type 0 where
    pub destination : Fields
    pub found : resolve_destination c message_type ≡ ok (dict destination)
    pub connects : resolve_factory getenv c ≡ ok p.factory
    pub exchange_is : p.exchange ≡ get_or "exchange_name" null destination
    pub routing_key_is : p.default_routing_key ≡ or_blank (get_or "routing_key" null destination)
    pub some_channel : 1 ≤ p.channels

  described :
      (c : Config) (message_type : String) (o : Options) {p : Pool} (v : Value) (f : Factory)
      → resolve_destination c message_type ≡ ok v
      → resolve_factory getenv c ≡ ok f
      → describe getenv o f v ≡ ok p
      → IsMadeFrom c message_type o p
  described c message_type o {p} (dict destination) f found connects h = record {
    destination = destination;
    found = found;
    connects = cc;
    exchange_is = cc;
    routing_key_is = cc;
    some_channel = ground (arith, one-le-one_at_least o.num_workers);
  }
  described c message_type o null f found connects h = cc
  described c message_type o (boolean b) f found connects h = cc
  described c message_type o (integer n) f found connects h = cc
  described c message_type o (string t) f found connects h = cc
  described c message_type o (opaque x) f found connects h = cc
  described c message_type o (array items) f found connects h = cc

  assembled :
      (c : Config) (message_type : String) (o : Options) {p : Pool} (v : Value)
      (f : Outcome Factory)
      → resolve_destination c message_type ≡ ok v
      → resolve_factory getenv c ≡ f
      → assemble getenv o v f ≡ ok p
      → IsMadeFrom c message_type o p
  assembled c message_type o v (raised e) found connects h = cc
  assembled c message_type o v (ok f) found connects h =
      described c message_type o v f found connects h

  located :
      (c : Config) (message_type : String) (o : Options) {p : Pool} (d : Outcome Value)
      → resolve_destination c message_type ≡ d
      → at_destination getenv c o d ≡ ok p
      → IsMadeFrom c message_type o p
  located c message_type o (raised e) found h = cc
  located c message_type o (ok v) found h =
      assembled c message_type o v (resolve_factory getenv c) found refl h

  -- A pool that could be made publishes to its message type's destination, through the factory that
  -- its configuration gives, on at least one channel, whatever number of workers is asked for.
  pub make_pool-IsMadeFrom :
      (c : Config) (message_type : String) (o : Options) {p : Pool}
      → make_pool getenv c message_type o ≡ ok p
      → IsMadeFrom c message_type o p
  unfolding make_pool
  make_pool-IsMadeFrom c message_type o h =
      located c message_type o (resolve_destination c message_type) refl h
