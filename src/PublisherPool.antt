-- ===== src/PublisherPool.antt =====
-- The constructor of `PublisherPool` in src/mq_adapters/publisher_pool.py: how it finds its destination and
-- its connection factory.
pub mod Construction
pub mod Operations
pub mod Delivery
use rabbitmq_pika_adapter.Prelude.{ℕ, String, Bool, true, false, Option, none, some, if◌then◌else◌}
use rabbitmq_pika_adapter.Prelude.Int.{ℤ, pos, ltb_ℤ, nonneg}
use rabbitmq_pika_adapter.Outcome.{
  Exception, value_error, key_error, attribute_error, external, Outcome, ok, raised,
}
use rabbitmq_pika_adapter.Value.{Value, Fields, null, dict, string, end, get, get_or, truthy}
use rabbitmq_pika_adapter.Connection.{
  RabbitConnectionFactory, make_connection_factory_from_params, load_connection_params_from_env,
}

-- `injected` is the factory that the caller passed.
pub data Factory : Type 0 where
  injected : Factory
  built : RabbitConnectionFactory → Factory

-- What the clients pass to each pool. `has_factory` says that a callable was passed.
pub record Config : Type 0 where
  pub has_factory : Bool
  pub connection_params : Option Fields
  pub message_type_map : Option Fields

pub record Options : Type 0 where
  pub num_workers : ℤ
  pub confirm_delivery : Bool
  pub queue_maxsize : ℤ

-- What the pool hands to its backend. `channels` and `queue_maxsize` are as the backend bounds them.
pub record Pool : Type 0 where
  pub factory : Factory
  pub exchange : Value
  pub default_routing_key : Value
  pub channels : ℕ
  pub confirm_delivery : Bool
  pub queue_maxsize : ℕ

-- Dicts that are missing or empty count as false.
abbrev pub non_empty_dict : Option Fields → Option Fields
non_empty_dict none = none
non_empty_dict (some d) = if truthy (dict d) then some d else none

-- `connection_params.get('message_types') if connection_params else None`
abbrev pub types_of : Option Fields → Value
types_of none = null
types_of (some params) = get_or "message_types" null params

abbrev pub type_map : Option Fields → Option Fields → Value
type_map (some types) params = dict types
type_map none params = types_of params

-- `map[message_type]`
abbrev pub entry : String → Value → Outcome Value
entry message_type (dict types) = elim (get message_type types) [
  | none ↦ raised key_error
  | some v ↦ ok v
]
entry message_type _ = raised (external 0)

unfoldable pub resolve_destination : Config → String → Outcome Value
unfolding truthy get get_or
resolve_destination c message_type =
    let types = type_map (non_empty_dict c.message_type_map) (non_empty_dict c.connection_params) in
    if truthy types then entry message_type types else raised value_error

abbrev pub built_from : Outcome RabbitConnectionFactory → Outcome Factory
built_from (ok f) = ok (built f)
built_from (raised e) = raised e

-- With parameters from the environment; without any there is no configuration.
abbrev pub from_env : Outcome (Option Fields) → Outcome Factory
from_env (raised e) = raised e
from_env (ok none) = raised value_error
from_env (ok (some params)) = built_from (make_connection_factory_from_params params)

abbrev pub from_params_or_env : Option Fields → Outcome (Option Fields) → Outcome Factory
from_params_or_env (some params) env = built_from (make_connection_factory_from_params params)
from_params_or_env none env = from_env env

-- `a or ''`
abbrev pub or_blank : Value → Value
or_blank v = if truthy v then v else string ""

abbrev pub one_at_least : ℤ → ℕ
one_at_least n = if ltb_ℤ (pos 1) n then nonneg n else 1

module _ (getenv : String → Option String) where
  unfoldable pub resolve_factory : Config → Outcome Factory
  unfolding truthy
  resolve_factory c =
      if c.has_factory
      then ok injected
      else from_params_or_env (non_empty_dict c.connection_params)
          (load_connection_params_from_env getenv "RABBITMQ")

  -- Only a dict has `get`.
  abbrev pub describe : Options → Factory → Value → Outcome Pool
  describe o factory (dict destination) = ok (record {
    factory = factory;
    exchange = get_or "exchange_name" null destination;
    default_routing_key = or_blank (get_or "routing_key" null destination);
    channels = one_at_least o.num_workers;
    confirm_delivery = o.confirm_delivery;
    queue_maxsize = nonneg o.queue_maxsize;
  })
  describe o factory _ = raised attribute_error

  abbrev pub assemble : Options → Value → Outcome Factory → Outcome Pool
  assemble o destination (raised e) = raised e
  assemble o destination (ok factory) = describe o factory destination

  abbrev pub at_destination : Config → Options → Outcome Value → Outcome Pool
  at_destination c o (raised e) = raised e
  at_destination c o (ok destination) = assemble o destination (resolve_factory c)

  -- `__init__`
  unfoldable pub make_pool : Config → String → Options → Outcome Pool
  unfolding resolve_destination resolve_factory get_or truthy
  make_pool c message_type o = at_destination c o (resolve_destination c message_type)
