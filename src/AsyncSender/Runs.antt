-- ===== src/AsyncSender/Runs.antt =====
-- `AsyncSender`: the sender as its constructor leaves it, and runs of its operations.
use rabbitmq_pika_adapter.Prelude.{ℕ, String, Option, List, [], ◌∷◌, false}
use rabbitmq_pika_adapter.Outcome.{Outcome}
use rabbitmq_pika_adapter.Outcome.Respects.{Respects, IsPreorder}
use rabbitmq_pika_adapter.Retry.Floats.{Seconds}
use rabbitmq_pika_adapter.AsyncSender.World.{Env, Settings, Sender}
use rabbitmq_pika_adapter.AsyncSender.{Do, start, send, stop, flush_round}
use rabbitmq_pika_adapter.AsyncSender.Keeps.{
  IsKept, start-Respects, send-Respects, stop-Respects, flush_round-Respects,
}

unfoldable pub fresh : Sender
fresh = record {
  has_connection = false;
  has_channel = false;
  has_exchange = false;
  has_flusher = false;
  pending = [];
  begun = 0;
  log = [];
}

-- `flushes` is a round of the periodic flush.
pub data Operation : Type 0 where
  starts flushes stops : Operation
  sends : (body : Outcome (List ℕ)) (routing_key : Option String) → Operation

module _ {s : Seconds} (env : Env s) (settings : Settings s) where
  unfoldable pub perform : Operation → Do env settings
  unfolding start send stop
  perform starts = start env settings
  perform flushes = flush_round env settings
  perform stops = stop env settings
  perform (sends body routing_key) = send env settings body routing_key

  unfoldable pub run : List Operation → Sender → Sender
  unfolding perform
  run [] w = w
  run (o ∷ os) w = run os (perform o w).1

  -- What every operation keeps, a run keeps.
  pub run-Respects :
      (R : Sender → Sender → Type 0) (order : IsPreorder R)
      → IsKept env settings R order
      → (os : List Operation) (w : Sender) → R w (run os w)
  unfolding run
  run-Respects R order kept [] w = order.reflexive w
  run-Respects R order kept (o ∷ os) w =
      order.transitive (performed o w) (run-Respects R order kept os (perform o w).1)
    where
      performed : (o : Operation) → Respects R (perform o)
      performed starts = start-Respects env settings R order kept
      performed flushes = flush_round-Respects env settings R order kept
      performed stops = stop-Respects env settings R order kept
      performed (sends body key) = send-Respects env settings R order kept body key
