-- ===== src/Settlement.antt =====
-- What both listeners promise about a message whose callback has ended: a specification, with the
-- effects on the broker that it allows.
pub mod Sync
pub mod Async
pub mod Agreement
use rabbitmq_pika_adapter.Prelude.{ℕ, String, Bool, not, Option, none, some, List, [], ◌∷◌, text_eq}
use rabbitmq_pika_adapter.Prelude.Int.{ℤ}
use rabbitmq_pika_adapter.Outcome.{Outcome, ok, raised}
use rabbitmq_pika_adapter.DeadLettering.{DeadLetteringConfig, dead_letter}
use rabbitmq_pika_adapter.Listener.{poison_queue}

-- What is to become of the message.
pub data Verdict : Type 0 where
  acknowledge : Verdict
  move_to : (queue : String) → Verdict
  reject : (requeue : Bool) → Verdict

-- What the broker gets.
pub data Effect : Type 0 where
  acked : (tag : ℕ) → Effect
  nacked : (tag : ℕ) (requeue : Bool) → Effect
  published : (queue : String) (body : List ℕ) → Effect

abbrev pub failed_verdict : Option String → DeadLetteringConfig → Verdict
failed_verdict (some queue) cfg = move_to queue
failed_verdict none cfg = reject (not (text_eq cfg.on_error dead_letter))

-- By the outcome of the callback, the configuration and the number of the attempt.
abbrev pub verdict : Outcome (Unit {0}) → DeadLetteringConfig → ℤ → Verdict
verdict (ok _) cfg attempt = acknowledge
verdict (raised _) cfg attempt = failed_verdict (poison_queue cfg attempt) cfg

-- The last effect comes first.
abbrev pub effects : Verdict → ℕ → List ℕ → List Effect
effects acknowledge tag body = acked tag ∷ []
effects (move_to queue) tag body = acked tag ∷ published queue body ∷ []
effects (reject requeue) tag body = nacked tag requeue ∷ []
