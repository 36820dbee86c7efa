-- ===== src/AsyncListener/Tasks.antt =====
-- The tasks of a started `AsyncListener`: messages arrive, tasks wait for a permit, callbacks end, and
-- `stop` takes the semaphore away. Tasks run in any order.
pub mod Permits
pub mod Settlement
use rabbitmq_pika_adapter.Prelude.{
  ℕ, suc, ◌≡◌, Bool, true, false, Option, none, some, List, [], ◌∷◌, ◌++◌,
}
use rabbitmq_pika_adapter.AsyncListener.World.{Message, Env, Settings, Listener}
use rabbitmq_pika_adapter.AsyncListener.{run_handler}

-- `delivered` are the messages that the broker has handed over.
pub record System : Type 0 where
  pub listener : Listener
  pub delivered : List Message

module _ (env : Env) (settings : Settings) where
  pub data Step (s t : System) : Type 0 where
    -- `_on_message`
    arrives :
        (m : Message)
        → t ≡ record {
          listener = record s.listener { waiting = m ∷ s.listener.waiting };
          delivered = m ∷ s.delivered;
        }
        → Step s t
    -- A task gets past its `acquire`.
    begins :
        (m : Message) (before after : List Message) (permits : ℕ)
        → s.listener.waiting ≡ before ++ m ∷ after
        → s.listener.semaphore ≡ some (suc permits)
        → t ≡ record s {
          listener = record s.listener {
            waiting = before ++ after;
            semaphore = some permits;
            running = m ∷ s.listener.running;
          };
        }
        → Step s t
    -- A task ends before it has a permit: it is cancelled, or there is no semaphore any more.
    abandons :
        (m : Message) (before after : List Message)
        → s.listener.waiting ≡ before ++ m ∷ after
        → t ≡ record s { listener = record s.listener { waiting = before ++ after } }
        → Step s t
    -- The callback ends or is cancelled, and with it the task.
    ends :
        (m : Message) (before after : List Message)
        → s.listener.running ≡ before ++ m ∷ after
        → t ≡ record s {
          listener = run_handler env settings m (record s.listener { running = before ++ after });
        }
        → Step s t
    -- What `stop` does to the attributes that tasks look at.
    stops :
        t ≡ record s { listener = record s.listener { semaphore = none; has_channel = false } }
        → Step s t

  pub data Reach (s : System) : System → Type 0 where
    here : Reach s s
    next : {t u : System} → Reach s t → Step t u → Reach s u

-- After a `start` that has succeeded.
unfoldable pub started : Settings → System
started settings = record {
  listener = record {
    has_connection = true;
    has_channel = true;
    has_queue = true;
    has_consumer = true;
    semaphore = some settings.max_concurrency;
    waiting = [];
    running = [];
    log = [];
  };
  delivered = [];
}
