-- ===== src/Session/Construction.antt =====
-- The constructor of `Listener` in src/mq_adapters/sync_adapter.py. It finds its destination and its
-- connection factory as a publisher pool does.
use rabbitmq_pika_adapter.Prelude.{ℕ, String, Bool, not, ◌&&◌, Option, none, some, if◌then◌else◌}
use rabbitmq_pika_adapter.Prelude.Int.{ℤ, pos, ltb_ℤ}
use rabbitmq_pika_adapter.Outcome.{Outcome, ok, raised}
use rabbitmq_pika_adapter.Value.{Value, Fields, boolean, integer, field, end}
use rabbitmq_pika_adapter.PublisherPool.{
  Factory, Config, resolve_destination, resolve_factory, one_at_least,
}

-- `max_workers` and `max_in_flight` may be None.
pub record Options : Type 0 where
  pub predefined_queue : Bool
  pub auto_ack : Bool
  pub offload : Bool
  pub max_workers : Option ℤ
  pub max_in_flight : Option ℤ
  pub prefetch_size : ℤ
  pub prefetch_count : ℤ
  pub all_channels : Bool

-- The size of the executor and the semaphore's counter.
pub record Offloading : Type 0 where
  pub workers : ℕ
  pub in_flight : ℕ

-- What `__init__` leaves in the attributes. `offloading` is `none` without an executor.
pub record Made : Type 0 where
  pub destination : Value
  pub factory : Factory
  pub predefined_queue : Bool
  pub auto_ack : Bool
  pub offloading : Option Offloading
  pub prefetch_settings : Option Fields

abbrev pub given_or : ℤ → Option ℤ → ℤ
given_or default none = default
given_or default (some n) = n

unfoldable pub offloading_of : Options → Option Offloading
offloading_of o =
    let workers = one_at_least (given_or (pos 10) o.max_workers) in
    if o.offload
    then some (record {
      workers = workers;
      in_flight = one_at_least (given_or (pos workers) o.max_in_flight);
    })
    else none

abbrev pub negative : ℤ → Bool
negative n = ltb_ℤ n (pos 0)

abbrev pub prefetch : ℤ → ℤ → Bool → Fields
prefetch size count all_channels =
    field "prefetch_size" (integer size)
      (field "prefetch_count" (integer count) (field "all_channels" (boolean all_channels) end))

-- Only if both are given.
abbrev pub if_given : ℤ → ℤ → Bool → Option Fields
if_given size count all_channels =
    if not (negative size) && not (negative count)
    then some (prefetch size count all_channels)
    else none

-- With an executor and neither of them given, `prefetch_count` is `in_flight`.
unfoldable pub prefetch_of : Options → Option Offloading → Option Fields
prefetch_of o none = if_given o.prefetch_size o.prefetch_count o.all_channels
prefetch_of o (some f) =
    if negative o.prefetch_size && negative o.prefetch_count
    then if_given (pos 0) (pos f.in_flight) o.all_channels
    else if_given o.prefetch_size o.prefetch_count o.all_channels

module _ (getenv : String → Option String) where
  abbrev pub assemble : Options → Value → Outcome Factory → Outcome Made
  assemble o destination (raised e) = raised e
  assemble o destination (ok factory) = ok (record {
    destination = destination;
    factory = factory;
    predefined_queue = o.predefined_queue;
    auto_ack = o.auto_ack;
    offloading = offloading_of o;
    prefetch_settings = prefetch_of o (offloading_of o);
  })

  abbrev pub at_destination : Config → Options → Outcome Value → Outcome Made
  at_destination c o (raised e) = raised e
  at_destination c o (ok destination) = assemble o destination (resolve_factory getenv c)

  -- `__init__`
  unfoldable pub make_listener : Config → String → Options → Outcome Made
  unfolding resolve_destination resolve_factory offloading_of prefetch_of
  make_listener c message_type o = at_destination c o (resolve_destination c message_type)
