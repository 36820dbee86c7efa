-- ===== src/Connection/Environment.antt =====
-- Parameters from the environment are accepted.
use mathlib.Core.Path.{subst}
use rabbitmq_pika_adapter.Prelude.{
  ◌≡◌, refl, String, Option, none, some, inl, inr, arith, Option-cases,
}
use rabbitmq_pika_adapter.Prelude.Int.{ℤ}
use rabbitmq_pika_adapter.Outcome.{Outcome, ok, raised}
use rabbitmq_pika_adapter.Value.{Fields, field, string, integer, int}
use rabbitmq_pika_adapter.Connection.{
  RabbitConnectionFactory, make_connection_factory_from_params, or_else, variable, add_number,
  base_params, finish, gather, load_connection_params_from_env, int_or_raise, with_params,
  returns_params,
}

-- The factory connects to this place with these credentials.
abbrev pub Holds :
    (server : String) (port : ℤ) (vhost username password : String)
    → RabbitConnectionFactory
    → Type 0
Holds server port vhost username password f =
    (f.server ≡ string server)
    × (f.port ≡ port)
    × (f.vhost ≡ string vhost)
    × (f.username ≡ string username)
    × (f.password ≡ string password)

ok_inj : {p q : Fields} → ok p ≡ ok q → p ≡ q
ok_inj e = cc

along_ok : (Q : Fields → Type 0) {p q : Fields} → ok p ≡ ok q → Q p → Q q
along_ok Q e h = subst Q (ok_inj e) h

add_number_post :
    (Q : Fields → Type 0) (key : String) (o : Option String) (params : Fields) {q : Fields}
    → add_number key o params ≡ ok q
    → Q params
    → ((n : ℤ) → Q (field key (integer n) params))
    → Q q
add_number_post Q key none params e plain more = along_ok Q e plain
add_number_post Q key (some s) params e plain more = elim (Option-cases (int (string s))) [
  | inl fails ↦ absurd (ground arith)
  | inr (n, parses) ↦ along_ok Q (rw (add_number, parses) at e) (more n)
]

returns_params-ok : (r : Outcome Fields) {q : Fields} → returns_params r ≡ ok (some q) → r ≡ ok q
returns_params-ok (ok p) e = ground arith
returns_params-ok (raised x) e = cc

with_params-ok :
    (r : Outcome Fields) (f : Fields → Outcome Fields) {q : Fields}
    → with_params r f ≡ ok q
    → (p : Fields) × (r ≡ ok p) × (f p ≡ ok q)
with_params-ok (ok p) f e = (p, refl, e)
with_params-ok (raised x) f e = cc

module _ (server : String) (port : ℤ) (vhost username password : String) where
  abbrev pub Accepted : Fields → Type 0
  Accepted params =
      (f : RabbitConnectionFactory) × (make_connection_factory_from_params params ≡ ok f)
      × Holds server port vhost username password f

  abbrev base : Fields
  base = base_params server port vhost username password

  abbrev Extended : Fields → Type 0
  Extended params = Accepted params × ((n : ℤ) → Accepted (field "channel_max" (integer n) params))

  base-Extended : Extended base
  unfolding make_connection_factory_from_params
  base-Extended =
      ((_, refl, (refl, refl, refl, refl, refl)), λ n. (_, refl, (refl, refl, refl, refl, refl)))

  heartbeat-Extended : (m : ℤ) → Extended (field "heartbeat" (integer m) base)
  unfolding make_connection_factory_from_params
  heartbeat-Extended m =
      ((_, refl, (refl, refl, refl, refl, refl)), λ n. (_, refl, (refl, refl, refl, refl, refl)))

module _ (getenv : String → Option String) (prefix : String) where
  -- Where the parameters come from.
  abbrev pub set : String → String → Type 0
  set suffix value = variable getenv prefix suffix ≡ some value

  finish-Accepted :
      (server port_text vhost username password : String) {params : Fields}
      → finish getenv prefix server (int_or_raise (string port_text)) vhost username password
        ≡ ok (some params)
      → (port : ℤ) × (int (string port_text) ≡ some port)
        × Accepted server port vhost username password params
  finish-Accepted server port_text vhost username password {params} e =
      elim (Option-cases (int (string port_text))) [
        | inl fails ↦ absurd (ground arith)
        | inr (port, parses) ↦
            let rest = returns_params-ok _ (rw (finish, parses) at e) in
            let (p, first, second) = with_params-ok _ _ rest in
            let extended =
              add_number_post (Extended server port vhost username password) "heartbeat"
                (variable getenv prefix "_HEARTBEAT")
                (base_params server port vhost username password) first
                (base-Extended server port vhost username password)
                (heartbeat-Extended server port vhost username password) in
            (
              port,
              parses,
              add_number_post (Accepted server port vhost username password) "channel_max"
                  (variable getenv prefix "_CHANNEL_MAX") p second extended.0 extended.1,
            )
      ]

  -- The texts that the required parameters were read from, and what became of them.
  pub record IsFromEnvironment (params : Fields) : Type 0 where
    pub server : String
    pub port_text : String
    pub vhost : String
    pub username : String
    pub password : String
    pub port : ℤ
    pub server_set :
        or_else (variable getenv prefix "_HOST") (variable getenv prefix "_SERVER") ≡ some server
    pub port_set : set "_PORT" port_text
    pub vhost_set : set "_VHOST" vhost
    pub username_set : set "_USER" username
    pub password_set : set "_PASSWORD" password
    pub parses : int (string port_text) ≡ some port
    pub accepted : Accepted server port vhost username password params

  -- Parameters that were loaded from the environment are accepted, and the factory connects to the
  -- place and with the credentials that the variables name.
  pub load-IsFromEnvironment :
      {params : Fields}
      → load_connection_params_from_env getenv prefix ≡ ok (some params)
      → IsFromEnvironment params
  unfolding load_connection_params_from_env
  load-IsFromEnvironment {params} e = gathered _ _ _ _ _ refl refl refl refl refl e
    where
      gathered :
          (a b c d p : Option String)
          → or_else (variable getenv prefix "_HOST") (variable getenv prefix "_SERVER") ≡ a
          → variable getenv prefix "_PORT" ≡ b
          → variable getenv prefix "_VHOST" ≡ c
          → variable getenv prefix "_USER" ≡ d
          → variable getenv prefix "_PASSWORD" ≡ p
          → gather getenv prefix a b c d p ≡ ok (some params)
          → IsFromEnvironment params
      gathered (some server) (some port_text) (some vhost) (some username) (some password) ea eb ec
            ed ep h =
          let (port, parses, accepted) =
            finish-Accepted server port_text vhost username password h in
          record {
            server = server;
            port_text = port_text;
            vhost = vhost;
            username = username;
            password = password;
            port = port;
            server_set = ea;
            port_set = eb;
            vhost_set = ec;
            username_set = ed;
            password_set = ep;
            parses = parses;
            accepted = accepted;
          }
      gathered none b c d p ea eb ec ed ep h = cc
      gathered (some a) none c d p ea eb ec ed ep h = cc
      gathered (some a) (some b) none d p ea eb ec ed ep h = cc
      gathered (some a) (some b) (some c) none p ea eb ec ed ep h = cc
      gathered (some a) (some b) (some c) (some d) none ea eb ec ed ep h = cc
