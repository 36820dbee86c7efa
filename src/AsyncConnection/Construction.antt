-- ===== src/AsyncConnection/Construction.antt =====
-- What the constructors of `AsyncSender` and `AsyncListener` in src/mq_adapters/async_adapter.py share.
use rabbitmq_pika_adapter.Prelude.{
  String, Bool, true, false, Option, none, some, ◌≡◌, refl, Bool-cases, inl, inr, if◌then◌else◌,
}
use rabbitmq_pika_adapter.Outcome.{value_error, import_error, Outcome, ok, raised}
use rabbitmq_pika_adapter.Value.{Value, Fields, truthy}
use rabbitmq_pika_adapter.PublisherPool.{
  Config, non_empty_dict, type_map, entry, resolve_destination,
}
use rabbitmq_pika_adapter.AsyncConnection.{Source, injected, parameters, nothing}

unfoldable pub resolve_message_type_map : Config → Outcome Value
unfolding truthy
resolve_message_type_map c =
    let types = type_map (non_empty_dict c.message_type_map) (non_empty_dict c.connection_params) in
    if truthy types then ok types else raised value_error

abbrev pub entry_of : String → Outcome Value → Outcome Value
entry_of message_type (raised e) = raised e
entry_of message_type (ok types) = entry message_type types

abbrev pub from_parameters : Option Fields → Source
from_parameters none = nothing
from_parameters (some params) = parameters params

-- Where `start` will take the connection from.
abbrev pub source_of : Config → Source
source_of c =
    if c.has_factory then injected else from_parameters (non_empty_dict c.connection_params)

-- `_require_aio_pika`, and then the destination. `installed` says that aio-pika can be imported.
unfoldable pub async_destination : (installed : Bool) → Config → String → Outcome Value
unfolding resolve_message_type_map
async_destination installed c message_type =
    if installed then entry_of message_type (resolve_message_type_map c) else raised import_error

-- The async adapters look a destination up as the sync ones do.
entry_of-resolve :
    (c : Config) (message_type : String)
    → entry_of message_type (resolve_message_type_map c) ≡ resolve_destination c message_type
unfolding resolve_message_type_map resolve_destination
entry_of-resolve c message_type =
    elim (Bool-cases (
      truthy (type_map (non_empty_dict c.message_type_map) (non_empty_dict c.connection_params)))) [
        | inl some_types ↦ rw some_types refl
        | inr no_types ↦ rw no_types refl
      ]

pub async_destination-found :
    (installed : Bool) (c : Config) (message_type : String) {v : Value}
    → async_destination installed c message_type ≡ ok v
    → resolve_destination c message_type ≡ ok v
unfolding async_destination
async_destination-found true c message_type h = rw (entry_of-resolve c message_type) at h
async_destination-found false c message_type h = absurd (cc)
