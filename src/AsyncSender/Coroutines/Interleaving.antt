-- ===== src/AsyncSender/Coroutines/Interleaving.antt =====
-- The coroutines of one `AsyncSender` in any order.
pub mod Settling
pub mod Operations
pub mod Once
use rabbitmq_pika_adapter.Prelude.{◌≡◌, List, [], ◌∷◌, ◌++◌}
use rabbitmq_pika_adapter.Retry.Floats.{Seconds}
use rabbitmq_pika_adapter.AsyncSender.World.{Env, Settings, Sender}
use rabbitmq_pika_adapter.AsyncSender.Runs.{Operation, fresh}
use rabbitmq_pika_adapter.AsyncSender.Coroutines.{Coroutine, coroutine, advance}

-- The sender, and the tasks that use it.
pub record System : Type 0 where
  pub sender : Sender
  pub tasks : List Coroutine

unfoldable pub new_system : System
unfolding fresh
new_system = record { sender = fresh; tasks = [] }

module _ {s : Seconds} (env : Env s) (settings : Settings s) where
  pub data Step (u v : System) : Type 0 where
    calls : (o : Operation) → v ≡ record u { tasks = coroutine env settings o ∷ u.tasks } → Step u v
    advances :
        (c : Coroutine) (before after : List Coroutine)
        → u.tasks ≡ before ++ c ∷ after
        → v ≡ record {
          sender = (advance env settings c u.sender).0;
          tasks = before ++ (advance env settings c u.sender).1 ∷ after;
        }
        → Step u v

  pub data Reach (u : System) : System → Type 0 where
    here : Reach u u
    next : {v w : System} → Reach u v → Step v w → Reach u w
