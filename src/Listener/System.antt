-- ===== src/Listener/System.antt =====
-- The threads of an offloading listener: the connection's thread delivers messages and runs scheduled
-- jobs, workers run callbacks and their `_on_done`, and any thread may ask to stop.
pub mod Permits
pub mod Counters
pub mod Settlement
use rabbitmq_pika_adapter.Prelude.{ℕ, ◌≡◌, Bool, true, false, not, ◌||◌, ltb, List, [], ◌∷◌, ◌++◌}
use rabbitmq_pika_adapter.Outcome.{Outcome, ok, raised}
use rabbitmq_pika_adapter.Listener.Message.{Delivery, Job}
use rabbitmq_pika_adapter.Listener.World.{user_callback, Env, Settings, Listener, call}
use rabbitmq_pika_adapter.Listener.{run_job, on_done, offload_wrapper}

-- `delivered` are the messages that the broker has handed over.
pub record System : Type 0 where
  pub listener : Listener
  pub delivered : List Delivery

-- `acquire` waits for a permit. Without offloading, or after `stop_me`, the handler does not get
-- there.
unfoldable pub may_proceed : Settings → Listener → Bool
may_proceed settings s = not settings.offload || (s.stop_me || ltb 0 s.permits)

module _ (env : Env) (settings : Settings) where
  -- A worker runs the callback of a task, and the task waits for its `_on_done`.
  unfoldable pub run_callback : Delivery → Listener → Listener
  unfolding call
  run_callback d s =
      let (r, s') = call env (user_callback d) s in record s' { finished = (d, r) ∷ s'.finished }

  -- What any of the threads may do next. Tasks run and end in any order.
  pub data Step (s t : System) : Type 0 where
    deliver :
        (d : Delivery)
        → may_proceed settings s.listener ≡ true
        → t ≡ record {
          listener = (offload_wrapper env settings d s.listener).1;
          delivered = d ∷ s.delivered;
        }
        → Step s t
    callback_ends :
        (d : Delivery) (before after : List Delivery)
        → s.listener.running ≡ before ++ d ∷ after
        → t
          ≡ record s { listener = run_callback d (record s.listener { running = before ++ after }) }
        → Step s t
    task_done :
        (d : Delivery) (r : Outcome (Unit {0}))
        (before after : List (Delivery × Outcome (Unit {0})))
        → s.listener.finished ≡ before ++ (d, r) ∷ after
        → t ≡ record s {
          listener =
              (on_done env settings d r (record s.listener { finished = before ++ after })).1;
        }
        → Step s t
    run_scheduled :
        (job : Job) (rest : List Job)
        → s.listener.scheduled ≡ job ∷ rest
        → t ≡ record s {
          listener = (run_job env settings job (record s.listener { scheduled = rest })).1;
        }
        → Step s t
    stop : t ≡ record s { listener = record s.listener { stop_me = true } } → Step s t

  pub data Reach (s : System) : System → Type 0 where
    here : Reach s s
    next : {t u : System} → Reach s t → Step t u → Reach s u

-- The listener that `__init__` makes, with its semaphore.
unfoldable pub start : ℕ → System
start in_flight = record {
  listener = record {
    stop_me = false;
    permits = in_flight;
    running = [];
    finished = [];
    scheduled = [];
    log = [];
  };
  delivered = [];
}
