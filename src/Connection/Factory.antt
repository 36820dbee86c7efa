-- ===== src/Connection/Factory.antt =====
-- What a connection factory is made of.
use rabbitmq_pika_adapter.Prelude.{
  ◌≡◌, refl, String, Bool, true, none, some, List, [], ◌∷◌, Bool-cases, Option-cases, inl, inr,
  str_eq, eq_iff, arith, if◌then◌else◌,
}
use rabbitmq_pika_adapter.Prelude.Int.{ℤ}
use rabbitmq_pika_adapter.Outcome.{Outcome, ok, raised}
use rabbitmq_pika_adapter.Value.{Value, Fields, field, end, get, get_or, null, int}
use rabbitmq_pika_adapter.Connection.{
  RabbitConnectionFactory, required, missing, contains, is_empty, build, reserved, without, extra,
  make_connection_factory_from_params, int_or_raise,
}

get-without_eq :
    (drop : String → Bool) (k : String) (v : Value) (rest : Fields)
    → get k (without drop rest) ≡ (if drop k then none else get k rest)
    → get k (without drop (field k v rest)) ≡ (if drop k then none else some v)
unfolding get without
get-without_eq drop k v rest h = elim (Bool-cases (drop k)) [
  | inl drops ↦ rw drops (rw drops at h)
  | inr keeps ↦ ground (arith, eq_iff k k)
]

get-without :
    (drop : String → Bool) (k : String) (params : Fields)
    → get k (without drop params) ≡ (if drop k then none else get k params)
unfolding get without
get-without drop k end = ground arith
get-without drop k (field j v rest) = elim (Bool-cases (str_eq j k)) [
  | inl same ↦
      let is : j ≡ k = (eq_iff j k).0 same in
      rw (is, (eq_iff k k).1 refl) (get-without_eq drop k v rest (get-without drop k rest))
  | inr other ↦ ground (arith, get-without drop k rest)
]

-- Where nothing is missing, every key that was asked for is there.
present :
    (ks : List String) (k : String) (params : Fields)
    → is_empty (missing ks params) ≡ true
    → contains k ks ≡ true
    → (v : Value) × (get k params ≡ some v)
unfolding missing contains
present [] k params h asked = absurd (ground arith)
present (j ∷ js) k params h asked = elim (Option-cases (get j params)) [
  | inl gone ↦ absurd (ground arith)
  | inr (v, found) ↦ elim (Bool-cases (str_eq j k)) [
    | inl same ↦ (v, rw (← (eq_iff j k).0 same) found)
    | inr other ↦ present js k params (ground arith) (ground arith)
  ]
]

get_or_there :
    (k : String) (params : Fields)
    → ((v : Value) × (get k params ≡ some v))
    → get k params ≡ some (get_or k null params)
unfolding get_or
get_or_there k params (v, found) = ground arith

-- The parts of a factory that was made from `params`.
pub record IsMadeFrom (params : Fields) (f : RabbitConnectionFactory) : Type 0 where
  pub server : get "server" params ≡ some f.server
  pub port : (v : Value) × (get "port" params ≡ some v) × (int v ≡ some f.port)
  pub username : get "username" params ≡ some f.username
  pub password : get "password" params ≡ some f.password
  pub vhost : get "vhost" params ≡ some f.vhost
  pub kwargs :
      (k : String) → get k f.connection_kwargs ≡ (if reserved k then none else get k params)

factory_of : Fields → ℤ → RabbitConnectionFactory
factory_of params port = record {
  server = get_or "server" null params;
  port = port;
  username = get_or "username" null params;
  password = get_or "password" null params;
  vhost = get_or "vhost" null params;
  connection_kwargs = extra params;
}

build-ok :
    (params : Fields) (r : Outcome ℤ) {f : RabbitConnectionFactory}
    → build params r ≡ ok f
    → (n : ℤ) × (r ≡ ok n) × (factory_of params n ≡ f)
unfolding factory_of
build-ok params (raised e) h = cc
build-ok params (ok n) h = (n, refl, cc)

int_or_raise-ok : (v : Value) {n : ℤ} → int_or_raise v ≡ ok n → int v ≡ some n
int_or_raise-ok v h = ground arith

factory_of-IsMadeFrom :
    (params : Fields) (n : ℤ)
    → is_empty (missing required params) ≡ true
    → int (get_or "port" null params) ≡ some n
    → IsMadeFrom params (factory_of params n)
unfolding factory_of extra contains
factory_of-IsMadeFrom params n full port = record {
  server = there "server" refl;
  port = (get_or "port" null params, there "port" refl, port);
  username = there "username" refl;
  password = there "password" refl;
  vhost = there "vhost" refl;
  kwargs = λ k. get-without reserved k params;
}
  where
    there : (k : String) → contains k required ≡ true → get k params ≡ some (get_or k null params)
    there k asked = get_or_there k params (present required k params full asked)

-- A factory that could be made has every required parameter as it was given, with the port as a
-- number, and forwards every other parameter to pika but `message_types` and `exchange_name`.
pub make_connection_factory-IsMadeFrom :
    (params : Fields) {f : RabbitConnectionFactory}
    → make_connection_factory_from_params params ≡ ok f
    → IsMadeFrom params f
unfolding make_connection_factory_from_params
make_connection_factory-IsMadeFrom params {f} e =
    elim (Bool-cases (is_empty (missing required params))) [
      | inl full ↦
          let (n, port, same) =
            build-ok params (int_or_raise (get_or "port" null params)) (rw full at e) in
          rw (← same)
            (factory_of-IsMadeFrom params n full (int_or_raise-ok (get_or "port" null params) port))
      | inr partial ↦ absurd (ground arith)
    ]
