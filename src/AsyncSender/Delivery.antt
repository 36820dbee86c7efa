-- ===== src/AsyncSender/Delivery.antt =====
-- `AsyncSender`: what a `send` that returns has done, and what one that raises leaves.
use rabbitmq_pika_adapter.Prelude.{ℕ, ◌≡◌, List, [], ◌∷◌, ◌++◌, Bool, true, false}
use rabbitmq_pika_adapter.Outcome.{Outcome, ok, raised}
use rabbitmq_pika_adapter.Value.{Value}
use rabbitmq_pika_adapter.Retry.Floats.{Seconds}
use rabbitmq_pika_adapter.AsyncSender.World.{
  publish, gather_all, did, began, Log, Env, Settings, Sender,
}
use rabbitmq_pika_adapter.AsyncSender.{batches}

-- Flushes that were fine, the last one first.
unfoldable pub did_all : List (List ℕ) → Log
did_all [] = []
did_all (ns ∷ flushes) = did (gather_all ns) ∷ did_all flushes

module _ {s : Seconds} (env : Env s) (settings : Settings s) where
  -- With batching the publish is begun, and only flushes may follow; without it the broker has it.
  abbrev pub HandedOver : Bool → List ℕ → Value → Log → Type 0
  HandedOver true body key log =
      (n : ℕ) × (flushes : List (List ℕ)) × (rest : Log) × (log
        ≡ did_all flushes ++ began n body key ∷ rest)
  HandedOver false body key log = (rest : Log) × (log ≡ did (publish body key) ∷ rest)

  -- What a `send` leaves, by its outcome.
  abbrev pub AfterSend : List ℕ → Value → Outcome (Unit {0}) × Sender → Type 0
  AfterSend body key (ok u, w) = HandedOver (batches env settings) body key w.log
  AfterSend body key (raised e, w) =
      (w.has_connection ≡ false) × ((w.has_channel ≡ false) × (w.has_exchange ≡ false))
