-- ===== src/AsyncConnection.antt =====
-- `default_async_connection_factory` in src/mq_adapters/async_adapter.py, and where `AsyncSender` and
-- `AsyncListener` take their connection from.
pub mod Agreement
pub mod Construction
use rabbitmq_pika_adapter.Prelude.{String, Bool, true, false, Option, none, some, if◌then◌else◌}
use rabbitmq_pika_adapter.Prelude.Int.{ℤ}
use rabbitmq_pika_adapter.Outcome.{Exception, value_error, Outcome, ok, raised}
use rabbitmq_pika_adapter.Value.{Value, Fields, null, get, get_or, int}
use rabbitmq_pika_adapter.Connection.{required, missing, is_empty, int_or_raise}

-- The arguments of `aio_pika.connect_robust`. The last two are left out where they are `none`.
pub record Arguments : Type 0 where
  pub host : Value
  pub port : ℤ
  pub login : Value
  pub password : Value
  pub virtualhost : Value
  pub heartbeat : Option ℤ
  pub timeout : Option ℤ

-- `int(params[key])` where the key is there
abbrev pub optional_int : Option Value → Outcome (Option ℤ)
optional_int none = ok none
optional_int (some v) = elim (int_or_raise v) [ ok n ↦ ok (some n) | raised e ↦ raised e ]

abbrev pub with_timeout : Fields → ℤ → Option ℤ → Outcome (Option ℤ) → Outcome Arguments
with_timeout params port heartbeat (raised e) = raised e
with_timeout params port heartbeat (ok timeout) = ok (record {
  host = get_or "server" null params;
  port = port;
  login = get_or "username" null params;
  password = get_or "password" null params;
  virtualhost = get_or "vhost" null params;
  heartbeat = heartbeat;
  timeout = timeout;
})

abbrev pub with_heartbeat : Fields → ℤ → Outcome (Option ℤ) → Outcome Arguments
with_heartbeat params port (raised e) = raised e
with_heartbeat params port (ok heartbeat) =
    with_timeout params port heartbeat (optional_int (get "connection_timeout" params))

abbrev pub with_port : Fields → Outcome ℤ → Outcome Arguments
with_port params (raised e) = raised e
with_port params (ok port) = with_heartbeat params port (optional_int (get "heartbeat" params))

-- What `default_async_connection_factory` passes on; it raises before it connects.
unfoldable pub connect_arguments : Fields → Outcome Arguments
unfolding missing get get_or int
connect_arguments params =
    if is_empty (missing required params)
    then with_port params (int_or_raise (get_or "port" null params))
    else raised value_error

-- The caller's factory, the connection parameters, or neither (an empty dict is neither).
pub data Source : Type 0 where
  injected : Source
  parameters : Fields → Source
  nothing : Source

-- What is connected: by the factory (`none`) or with these arguments.
unfoldable pub target : Source → Outcome (Option Arguments)
unfolding connect_arguments
target injected = ok none
target nothing = raised value_error
target (parameters params) = elim (connect_arguments params) [
  | ok arguments ↦ ok (some arguments)
  | raised e ↦ raised e
]
