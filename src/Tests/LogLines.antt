-- ===== src/Tests/LogLines.antt =====
-- What log lines show.
use rabbitmq_pika_adapter.Prelude.{◌≡◌, refl, String, [], ◌∷◌}
use rabbitmq_pika_adapter.Value.{Value, string, dict, field, end, get_or, truthy}
use rabbitmq_pika_adapter.Serializer.{bytes}
use rabbitmq_pika_adapter.LogLines.{destination_str, maybe_repr_bytes}

abbrev render : Value → String
render (string s) = s
render v = "None"

-- A routing key that is blank is shown, and an exchange without a name is not.
shown :
    (destination_str render
        (dict (field "exchange_name" (string "x.orders") (field "routing_key" (string "") end)))
      ≡ "exchange=x.orders,routing_key=")
    × (destination_str render (dict (field "exchange_name" (string "") end)) ≡ "<destination>")
    × (maybe_repr_bytes 2 (bytes (1 ∷ 2 ∷ 3 ∷ [])) ≡ bytes (1 ∷ 2 ∷ 46 ∷ 46 ∷ 46 ∷ []))
unfolding destination_str get_or truthy maybe_repr_bytes
shown = (refl, refl, refl)
