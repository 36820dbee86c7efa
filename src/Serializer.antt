-- ===== src/Serializer.antt =====
-- `default_serializer` in src/mq_adapters/helper_functions.py.
use rabbitmq_pika_adapter.Prelude.{ℕ, String, List}
use rabbitmq_pika_adapter.Outcome.{Outcome, ok, raised}
use rabbitmq_pika_adapter.Value.{Value}

-- What `isinstance` tells apart.
pub data Message : Type 0 where
  bytes : List ℕ → Message
  text : String → Message
  other : Value → Message

-- `encode` is `str.encode("utf-8")` and `dumps` is `json.dumps`; both may raise.
module _ (encode : String → Outcome (List ℕ)) (dumps : Value → Outcome String) where
  abbrev pub encoded : Outcome String → Outcome (List ℕ)
  encoded (ok s) = encode s
  encoded (raised e) = raised e

  unfoldable pub default_serializer : Message → Outcome (List ℕ)
  default_serializer (bytes b) = ok b
  default_serializer (text s) = encode s
  default_serializer (other v) = encoded (dumps v)
