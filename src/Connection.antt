-- ===== src/Connection.antt =====
-- src/mq_adapters/helper_functions.py: connection parameters, from a dict or from the environment.
pub mod Factory
pub mod Environment
use Prim.Native.String.{◌++◌ as string_append}
use rabbitmq_pika_adapter.Prelude.{
  String, Bool, true, false, not, ◌||◌, Option, none, some, List, [], ◌∷◌, str_eq, if◌then◌else◌,
}
use rabbitmq_pika_adapter.Prelude.Int.{ℤ}
use rabbitmq_pika_adapter.Outcome.{Exception, value_error, external, Outcome, ok, raised}
use rabbitmq_pika_adapter.Value.{Value, Fields, string, integer, null, field, end, get, get_or, int}

pub record RabbitConnectionFactory : Type 0 where
  pub server : Value
  pub port : ℤ
  pub username : Value
  pub password : Value
  pub vhost : Value
  pub connection_kwargs : Fields

abbrev pub required : List String
required = "server" ∷ "port" ∷ "username" ∷ "password" ∷ "vhost" ∷ []

-- `k in l`
unfoldable pub contains : String → List String → Bool
contains k [] = false
contains k (j ∷ js) = if str_eq j k then true else contains k js

abbrev pub is_missing : Option Value → Bool
is_missing none = true
is_missing (some _) = false

-- `[k for k in required if k not in params]`
unfoldable pub missing : List String → Fields → List String
unfolding get
missing [] params = []
missing (k ∷ ks) params =
    let rest = missing ks params in if is_missing (get k params) then k ∷ rest else rest

-- What is not forwarded to pika.
unfoldable pub reserved : String → Bool
unfolding contains
reserved k = contains k required || (str_eq k "message_types" || str_eq k "exchange_name")

-- `{k: v for k, v in params.items() if not drop(k)}`
unfoldable pub without : (String → Bool) → Fields → Fields
without drop end = end
without drop (field k v rest) =
    let others = without drop rest in if drop k then others else field k v others

unfoldable pub extra : Fields → Fields
unfolding without
extra params = without reserved params

-- What `int` raises: ValueError on a text, TypeError or another error on the rest.
abbrev pub int_error : Value → Exception
int_error (string _) = value_error
int_error _ = external 0

abbrev pub int_or_raise : Value → Outcome ℤ
int_or_raise v = elim (int v) [ none ↦ raised (int_error v) | some n ↦ ok n ]

abbrev pub build : Fields → Outcome ℤ → Outcome RabbitConnectionFactory
build params (raised e) = raised e
build params (ok port) = ok (record {
  server = get_or "server" null params;
  port = port;
  username = get_or "username" null params;
  password = get_or "password" null params;
  vhost = get_or "vhost" null params;
  connection_kwargs = extra params;
})

abbrev pub is_empty : List String → Bool
is_empty [] = true
is_empty (_ ∷ _) = false

-- With every required key in `params` the default of `get_or` is not used.
unfoldable pub make_connection_factory_from_params : Fields → Outcome RabbitConnectionFactory
unfolding missing extra get_or int
make_connection_factory_from_params params =
    if is_empty (missing required params)
    then build params (int_or_raise (get_or "port" null params))
    else raised value_error

-- Truth of a text that may be missing.
abbrev pub non_empty : Option String → Option String
non_empty none = none
non_empty (some s) = if str_eq s "" then none else some s

abbrev pub or_else : Option String → Option String → Option String
or_else none other = other
or_else (some s) other = some s

-- `params[key] = int(value)` where the variable is set
abbrev pub add_number : String → Option String → Fields → Outcome Fields
add_number key none params = ok params
add_number key (some s) params = elim (int_or_raise (string s)) [
  | ok n ↦ ok (field key (integer n) params)
  | raised e ↦ raised e
]

abbrev pub with_params : Outcome Fields → (Fields → Outcome Fields) → Outcome Fields
with_params (raised e) f = raised e
with_params (ok params) f = f params

abbrev pub returns_params : Outcome Fields → Outcome (Option Fields)
returns_params (raised e) = raised e
returns_params (ok params) = ok (some params)

abbrev pub base_params : String → ℤ → String → String → String → Fields
base_params server port vhost username password = field "server" (string server) (
    field "port" (integer port) (
      field "vhost" (string vhost)
        (field "username" (string username) (field "password" (string password) end))))

-- `getenv` is `os.getenv`.
module _ (getenv : String → Option String) (prefix : String) where
  -- An environment variable that is set and not empty.
  abbrev pub variable : String → Option String
  variable suffix = non_empty (getenv (string_append prefix suffix))

  abbrev pub finish : String → Outcome ℤ → String → String → String → Outcome (Option Fields)
  finish server (raised e) vhost username password = raised e
  finish server (ok port) vhost username password = returns_params (
      with_params
        (add_number "heartbeat" (variable "_HEARTBEAT")
          (base_params server port vhost username password))
        (add_number "channel_max" (variable "_CHANNEL_MAX")))

  abbrev pub gather :
      (server port vhost username password : Option String) → Outcome (Option Fields)
  gather (some server) (some port) (some vhost) (some username) (some password) =
      finish server (int_or_raise (string port)) vhost username password
  gather _ _ _ _ _ = ok none

  -- `none` for None. New keys of the dict stand in front.
  unfoldable pub load_connection_params_from_env : Outcome (Option Fields)
  unfolding int
  load_connection_params_from_env =
      gather (or_else (variable "_HOST") (variable "_SERVER")) (variable "_PORT")
        (variable "_VHOST") (variable "_USER") (variable "_PASSWORD")
