-- ===== src/Tests/DeadLettering.antt =====
-- Runs of the dead-lettering configuration.
use rabbitmq_pika_adapter.Prelude.{ℕ, String, ◌≡◌, refl, some}
use rabbitmq_pika_adapter.Prelude.Int.{pos}
use rabbitmq_pika_adapter.Value.{
  Value, Fields, Items, string, integer, dict, array, nil, cons, field, end,
}
use rabbitmq_pika_adapter.DeadLettering.{dead_letter, resolve_dead_lettering_config}
use rabbitmq_pika_adapter.DeadLettering.Config.{IsValid, resolve_dead_lettering_config-IsValid}

abbrev pub render : Value → String
render v = "?"

-- Queue arguments as a user writes them.
abbrev pub destination : Fields
destination = field "exchange_name" (string "orders") (
    field "queue_args"
      (dict (
        field "on_error" (string " Dead_Letter ") (
          field "dead_letter_queue" (string "orders.dlq") (field "max_retries" (string "+3") end))))
      end)

resolve-destination :
    resolve_dead_lettering_config render destination
    ≡ record { on_error = dead_letter; dead_letter_queue = some "orders.dlq"; max_retries = pos 3 }
unfolding resolve_dead_lettering_config
resolve-destination = refl

-- What a broker writes of the deaths for one reason in the queue `orders`.
abbrev death : String → ℕ → Fields
death reason n = field "count" (integer (pos n)) (
    field "exchange" (string "") (
      field "queue" (string "orders") (
        field "reason" (string reason)
          (field "routing-keys" (array (cons (string "new") nil)) end))))

abbrev entries : Items
entries = cons (dict (death "rejected" 2)) (cons (dict (death "expired" 1)) nil)

abbrev pub headers : Fields
headers = field "x-death" (array entries) end

resolve_dead_lettering_config-IsValid_example :
    IsValid (resolve_dead_lettering_config render destination)
resolve_dead_lettering_config-IsValid_example =
    resolve_dead_lettering_config-IsValid render destination
