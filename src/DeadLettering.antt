-- ===== src/DeadLettering.antt =====
-- src/mq_adapters/dead_lettering.py: the configuration of failures and the count of attempts.
pub mod Attempts
pub mod Config
use rabbitmq_pika_adapter.Prelude.{
  ℕ, String, Bool, Option, none, some, List, [], ◌∷◌, ◌||◌, codes, text_eq, if◌then◌else◌,
}
use rabbitmq_pika_adapter.Prelude.Int.{ℤ, pos, ◌+ℤ◌, ltb_ℤ, nonneg}
use rabbitmq_pika_adapter.Value.{
  Value, Items, Fields, null, dict, array, string, integer, nil, cons, end, get, get_or, truthy,
  int, str,
}
use rabbitmq_pika_adapter.Value.Text.{strip, lower}

pub record DeadLetteringConfig : Type 0 where
  pub on_error : List ℕ
  pub dead_letter_queue : Option String
  pub max_retries : ℤ

abbrev pub requeue : List ℕ
requeue = codes "requeue"

abbrev pub dead_letter : List ℕ
dead_letter = codes "dead_letter"

abbrev pub queue_args_keys : List String
queue_args_keys = "queue_arguments" ∷ "queue_args" ∷ "queue_declare_arguments" ∷ []

-- The loop of `resolve_queue_arguments`.
unfoldable pub first_dict : List String → Fields → Fields
first_dict [] destination = end
first_dict (k ∷ ks) destination = elim (get k destination) [
  | some (dict d) ↦ d
  | _ ↦ first_dict ks destination
]

unfoldable pub resolve_queue_arguments : Fields → Fields
unfolding first_dict
resolve_queue_arguments = first_dict queue_args_keys

-- `args.get("dead_letter_queue")`, as a text unless it is None or missing
abbrev queue_name : (Value → String) → Option Value → Option String
queue_name render none = none
queue_name render (some null) = none
queue_name render (some v) = some (str render v)

-- `int(args.get("max_retries", 1))`, 1 where that raises, and at least 1
abbrev at_least_one : Option ℤ → ℤ
at_least_one none = pos 1
at_least_one (some n) = if ltb_ℤ n (pos 1) then pos 1 else n

abbrev known_mode : List ℕ → List ℕ
known_mode on_error =
    if text_eq on_error requeue || text_eq on_error dead_letter then on_error else requeue

-- `str(args.get("on_error", "requeue")).strip().lower()`
unfoldable pub mode_text : (Value → String) → Fields → List ℕ
unfolding get_or str strip lower
mode_text render args =
    lower (strip (codes (str render (get_or "on_error" (string "requeue") args))))

-- `render` is `str` on the values that are no text.
unfoldable pub resolve_dead_lettering_config : (Value → String) → Fields → DeadLetteringConfig
unfolding resolve_queue_arguments get_or str int mode_text text_eq
resolve_dead_lettering_config render destination =
    let args = resolve_queue_arguments destination in
    record {
      on_error = known_mode (mode_text render args);
      dead_letter_queue = queue_name render (get "dead_letter_queue" args);
      max_retries = at_least_one (int (get_or "max_retries" (integer (pos 1)) args));
    }

-- `int(entry.get("count"))` in the inner `try`; `get` gives None for a missing key, on which `int`
-- raises. An entry that is no dict counts nothing.
abbrev or_zero : Option ℤ → ℤ
or_zero none = pos 0
or_zero (some n) = n

unfoldable pub death_count : Value → ℤ
unfolding get_or int
death_count (dict entry) = or_zero (int (get_or "count" null entry))
death_count _ = pos 0

-- The loop over `x-death`, from `total`.
unfoldable pub sum_deaths : ℤ → Items → ℤ
unfolding death_count
sum_deaths total nil = total
sum_deaths total (cons entry rest) = sum_deaths (total +ℤ death_count entry) rest

abbrev x_death_total : Value → ℤ
x_death_total (array entries) = sum_deaths (pos 0) entries
x_death_total _ = pos 0

-- `headers` is None or a dict.
unfoldable pub retry_attempt_from_headers : Option Fields → ℤ
unfolding sum_deaths get_or truthy
retry_attempt_from_headers none = pos 1
retry_attempt_from_headers (some headers) =
    let x_death = get_or "x-death" null headers in
    if truthy (dict headers)
    then (if truthy x_death then pos 1 +ℤ pos (nonneg (x_death_total x_death)) else pos 1)
    else pos 1
