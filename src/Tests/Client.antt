-- ===== src/Tests/Client.antt =====
-- Runs of the connection parameters, of the pool's constructor and of the client's pools.
use rabbitmq_pika_adapter.Prelude.{
  ℕ, ◌≡◌, refl, String, true, false, Option, none, some, List, [], ◌∷◌, str_eq, if◌then◌else◌, ◌==◌,
}
use rabbitmq_pika_adapter.Prelude.Int.{pos}
use rabbitmq_pika_adapter.Outcome.{external, Outcome, ok, raised}
use rabbitmq_pika_adapter.Value.{Fields, string, integer, dict, field, end}
use rabbitmq_pika_adapter.Connection.{
  RabbitConnectionFactory, make_connection_factory_from_params, load_connection_params_from_env,
  base_params, reserved,
}
use rabbitmq_pika_adapter.Connection.Factory.{IsMadeFrom, make_connection_factory-IsMadeFrom}
use rabbitmq_pika_adapter.Connection.Environment.{IsFromEnvironment, load-IsFromEnvironment}
use rabbitmq_pika_adapter.PublisherPool.{Config, Options, Pool, injected, make_pool}
use rabbitmq_pika_adapter.Client.{
  Client, new_client, publisher, close, Operation, get_publisher, run,
}
use rabbitmq_pika_adapter.Client.Pools.{upto, stopped, every_pool_stopped}

abbrev pub getenv : String → Option String
getenv name =
    if str_eq name "RABBITMQ_SERVER"
    then some "mq.local"
    else if str_eq name "RABBITMQ_PORT"
    then some "5672"
    else if str_eq name "RABBITMQ_VHOST"
    then some "/"
    else if str_eq name "RABBITMQ_USER"
    then some "guest"
    else if str_eq name "RABBITMQ_PASSWORD"
    then some "secret"
    else if str_eq name "RABBITMQ_HEARTBEAT"
    then some "30"
    else none

abbrev loaded : Fields
loaded =
    field "heartbeat" (integer (pos 30)) (base_params "mq.local" (pos 5672) "/" "guest" "secret")

load-IsFromEnvironment_example : IsFromEnvironment getenv "RABBITMQ" loaded
unfolding load_connection_params_from_env
load-IsFromEnvironment_example = load-IsFromEnvironment getenv "RABBITMQ" refl

abbrev pub params : Fields
params =
    field "exchange_name" (string "orders") (
      field "heartbeat" (integer (pos 30)) (base_params "mq.local" (pos 5672) "/" "guest" "secret"))

abbrev pub factory : RabbitConnectionFactory
factory = record {
  server = string "mq.local";
  port = pos 5672;
  username = string "guest";
  password = string "secret";
  vhost = string "/";
  connection_kwargs = field "heartbeat" (integer (pos 30)) end;
}

make_connection_factory-IsMadeFrom_example : IsMadeFrom params factory
unfolding make_connection_factory_from_params reserved
make_connection_factory-IsMadeFrom_example = make_connection_factory-IsMadeFrom params refl

abbrev types : Fields
types =
    field "orders"
      (dict (field "exchange_name" (string "x.orders") (field "routing_key" (string "new") end)))
      (field "trades" (dict (field "exchange_name" (string "x.trades") end)) end)

abbrev pub config : Config
config = record { has_factory = true; connection_params = none; message_type_map = some types }

abbrev pub options : Options
options = record { num_workers = pos 0; confirm_delivery = false; queue_maxsize = pos 8 }

abbrev pub pool : Pool
pool = record {
  factory = injected;
  exchange = string "x.orders";
  default_routing_key = string "new";
  channels = 1;
  confirm_delivery = false;
  queue_maxsize = 8;
}

-- The second pool fails to stop.
abbrev pub stop_pool : List (ℕ × Outcome (Unit {0})) → ℕ → Outcome (Unit {0})
stop_pool before n = if n == 1 then raised (external 4) else ok tt

abbrev asked : List (Operation getenv config stop_pool)
asked =
    get_publisher "orders" "pool" options
    ∷ get_publisher "trades" "lightweight_sender" options
    ∷ get_publisher "orders" "pool" options
    ∷ []

abbrev client : Client
client = run getenv config stop_pool asked new_client

every_pool_stopped_example :
    stopped (close getenv config stop_pool client).1.stops ≡ upto client.created
every_pool_stopped_example = every_pool_stopped getenv config stop_pool asked

client-created : client.created ≡ 2
unfolding run new_client publisher make_pool
client-created = refl
