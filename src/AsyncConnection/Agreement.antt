-- ===== src/AsyncConnection/Agreement.antt =====
-- Which connection parameters both kinds of adapters accept.
use rabbitmq_pika_adapter.Prelude.{◌≡◌, refl, Option, arith, Bool-cases, inl, inr}
use rabbitmq_pika_adapter.Prelude.Int.{ℤ}
use rabbitmq_pika_adapter.Outcome.{Outcome, ok, raised}
use rabbitmq_pika_adapter.Value.{Fields, null, get, get_or}
use rabbitmq_pika_adapter.Connection.{
  RabbitConnectionFactory, required, missing, is_empty, int_or_raise, build,
  make_connection_factory_from_params,
}
use rabbitmq_pika_adapter.AsyncConnection.{
  Arguments, optional_int, with_timeout, with_heartbeat, with_port, connect_arguments,
}

-- The two adapters connect to the same place with the same credentials.
abbrev pub Agree : RabbitConnectionFactory → Arguments → Type 0
Agree f a =
    (a.host ≡ f.server)
    × (a.port ≡ f.port)
    × (a.login ≡ f.username)
    × (a.password ≡ f.password)
    × (a.virtualhost ≡ f.vhost)

abbrev Both : Fields → Arguments → Outcome RabbitConnectionFactory → Type 0
Both params a r = (f : RabbitConnectionFactory) × (r ≡ ok f) × Agree f a

timeout_agrees :
    (params : Fields) (port : ℤ) (heartbeat : Option ℤ) (o : Outcome (Option ℤ)) {a : Arguments}
    → with_timeout params port heartbeat o ≡ ok a
    → Both params a (build params (ok port))
timeout_agrees params port heartbeat (raised e) h = cc
timeout_agrees params port heartbeat (ok t) h = (_, refl, (cc, cc, cc, cc, cc))

heartbeat_agrees :
    (params : Fields) (port : ℤ) (o : Outcome (Option ℤ)) {a : Arguments}
    → with_heartbeat params port o ≡ ok a
    → Both params a (build params (ok port))
heartbeat_agrees params port (raised e) h = cc
heartbeat_agrees params port (ok b) h =
    timeout_agrees params port b (optional_int (get "connection_timeout" params)) h

port_agrees :
    (params : Fields) (o : Outcome ℤ) {a : Arguments}
    → with_port params o ≡ ok a
    → Both params a (build params o)
port_agrees params (raised e) h = cc
port_agrees params (ok port) h =
    heartbeat_agrees params port (optional_int (get "heartbeat" params)) h

-- Parameters that the async adapters turn into arguments of their connection are accepted by
-- `make_connection_factory_from_params`, whose factory names the same place and the same credentials. What pika
-- does with the other parameters that the factory forwards is not part of it.
pub connect_arguments-Agree :
    (params : Fields) {a : Arguments}
    → connect_arguments params ≡ ok a
    → (f : RabbitConnectionFactory) × (make_connection_factory_from_params params ≡ ok f)
      × Agree f a
unfolding connect_arguments make_connection_factory_from_params
connect_arguments-Agree params h = elim (Bool-cases (is_empty (missing required params))) [
  | inl full ↦
      rw full (port_agrees params (int_or_raise (get_or "port" null params)) (rw full at h))
  | inr partial ↦ absurd (ground arith)
]
