-- ===== src/DeadLettering/Attempts.antt =====
-- What `retry_attempt_from_headers` counts.
use rabbitmq_pika_adapter.Prelude.{ℕ, ◌+◌, ◌≡◌, Option, none, some, List, [], ◌∷◌, arith}
use rabbitmq_pika_adapter.Prelude.Int.{pos, ◌+ℤ◌, ◌≤ℤ◌}
use rabbitmq_pika_adapter.Value.{Value, Items, Fields, dict, integer, nil, cons, get}
use rabbitmq_pika_adapter.DeadLettering.{retry_attempt_from_headers}

-- The counts of `x-death` entries as a broker writes them: each is a dict, whatever else it holds.
pub data HasCounts : Items → List ℕ → Type 0 where
  no_entry : HasCounts nil []
  entry :
      {d : Fields} {n : ℕ} {rest : Items} {ns : List ℕ}
      → get "count" d ≡ some (integer (pos n))
      → HasCounts rest ns
      → HasCounts (cons (dict d) rest) (n ∷ ns)

pub sum : List ℕ → ℕ
sum [] = 0
sum (n ∷ ns) = n + sum ns

-- An attempt is never below one, whatever the headers hold.
pub one-le-retry_attempt : (headers : Option Fields) → pos 1 ≤ℤ retry_attempt_from_headers headers
unfolding retry_attempt_from_headers ◌+ℤ◌
one-le-retry_attempt none = omega arith
one-le-retry_attempt (some h) = ground arith
