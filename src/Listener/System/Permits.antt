-- ===== src/Listener/System/Permits.antt =====
-- The semaphore: permits and tasks in flight add up to `max_in_flight`.
use rabbitmq_pika_adapter.Prelude.{
  ℕ, ◌+◌, ◌≤◌, ◌≡◌, refl, true, List, ◌∷◌, ◌++◌, arith, length, length-append, ap,
}
use rabbitmq_pika_adapter.Outcome.{Outcome}
use rabbitmq_pika_adapter.Listener.Message.{Delivery, Job, ack_job, fail_job}
use rabbitmq_pika_adapter.Listener.World.{Env, Settings, Listener, call, count}
use rabbitmq_pika_adapter.Listener.{
  internal_wrapper, run_job, hand_over, schedule, settle, on_done, submit, offload_wrapper,
}
use rabbitmq_pika_adapter.Listener.System.{
  System, may_proceed, run_callback, Step, deliver, callback_ends, task_done, run_scheduled, stop,
  Reach, here, next, start,
}

-- The tasks that hold a permit.
abbrev pub in_flight : Listener → ℕ
in_flight s = length s.running + length s.finished

-- What an operation that takes and gives no permit leaves alone.
record SameTasks (s t : Listener) : Type 0 where
  permits : t.permits ≡ s.permits
  running : t.running ≡ s.running
  finished : t.finished ≡ s.finished

module _ (env : Env) (settings : Settings) where
  internal_wrapper-SameTasks :
      (d : Delivery) (s : Listener) → SameTasks s (internal_wrapper env settings d s).1
  unfolding internal_wrapper
  internal_wrapper-SameTasks d s = ground arith

  run_job-SameTasks : (job : Job) (s : Listener) → SameTasks s (run_job env settings job s).1
  unfolding run_job
  run_job-SameTasks (ack_job tag) s = ground arith
  run_job-SameTasks (fail_job tag d cfg attempt) s = ground arith

  schedule-SameTasks : (job : Job) (s : Listener) → SameTasks s (schedule env settings job s).1
  unfolding schedule hand_over call
  schedule-SameTasks job s = grind (arith, run_job-SameTasks)

  abbrev Total : ℕ → Listener → Type 0
  Total n s = s.permits + in_flight s ≡ n

  on_done-Total :
      (d : Delivery) (r : Outcome (Unit {0})) (s : Listener) (n : ℕ)
      → Total n s
      → Total (n + 1) (on_done env settings d r s).1
  unfolding on_done settle count
  on_done-Total d r s n h = grind (arith, schedule-SameTasks)

  offload_wrapper-Total :
      (d : Delivery) (s : Listener) (n : ℕ)
      → may_proceed settings s ≡ true
      → Total n s
      → Total n (offload_wrapper env settings d s).1
  unfolding offload_wrapper submit count call may_proceed
  offload_wrapper-Total d s n free h = grind (arith, internal_wrapper-SameTasks)

  run_callback-Total :
      (d : Delivery) (s : Listener) (n : ℕ)
      → Total n s
      → Total (n + 1) (run_callback env settings d s)
  unfolding run_callback call
  run_callback-Total d s n h = ground arith

  length-middle :
      {A : Type 0} (before : List A) (x : A) (after : List A)
      → length (before ++ x ∷ after) ≡ length (before ++ after) + 1
  length-middle before x after =
      omega (arith, length-append before (x ∷ after), length-append before after)

  Total-of_same : (n : ℕ) {s t : Listener} → SameTasks s t → Total n s → Total n t
  Total-of_same n same h = ground arith

  Step-Total :
      (n : ℕ) {s t : System} → Step env settings s t → Total n s.listener → Total n t.listener
  Step-Total n {s} (deliver d free e) h = rw e (offload_wrapper-Total d s.listener n free h)
  Step-Total n {s} (callback_ends d before after e e') h =
      let moved = record s.listener { running = before ++ after } in
      rw e' (
        omega (
          arith,
          run_callback-Total d moved (moved.permits + in_flight moved) refl,
          ap length e,
          length-middle before d after,
        ))
  Step-Total n {s} (task_done d r before after e e') h =
      let moved = record s.listener { finished = before ++ after } in
      rw e' (
        omega (
          arith,
          on_done-Total d r moved (moved.permits + in_flight moved) refl,
          ap length e,
          length-middle before (d, r) after,
        ))
  Step-Total n {s} (run_scheduled job rest e e') h =
      let moved = record s.listener { scheduled = rest } in
      rw e' (Total-of_same n (run_job-SameTasks job moved) h)
  Step-Total n {s} (stop e) h = rw e h

  Reach-Total :
      (n : ℕ) {s t : System} → Total n s.listener → Reach env settings s t → Total n t.listener
  Reach-Total n h here = h
  Reach-Total n h (next r step) = Step-Total n step (Reach-Total n h r)

  -- Whatever the threads do, and however the calls end, no permit is lost or made up: permits and
  -- tasks in flight add up to `max_in_flight`, so at most that many callbacks run at once.
  pub permits_conserved :
      (n : ℕ) {t : System}
      → Reach env settings (start n) t
      → (t.listener.permits + in_flight t.listener ≡ n) × (in_flight t.listener ≤ n)
  unfolding start
  permits_conserved n r = let total = Reach-Total n (omega arith) r in (total, omega arith)
