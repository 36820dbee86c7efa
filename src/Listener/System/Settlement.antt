-- ===== src/Listener/System/Settlement.antt =====
-- No message is settled twice.
use rabbitmq_pika_adapter.Prelude.{
  ℕ, ◌+◌, ◌≤◌, ◌≡◌, refl, Option, none, some, [], ◌∷◌, ◌++◌, arith, ap, sum_map, sum_map-append,
  sum_map-middle, ◌==◌, if◌then◌else◌,
}
use rabbitmq_pika_adapter.Outcome.{Outcome, ok, raised}
use rabbitmq_pika_adapter.Listener.Message.{Delivery, Job, ack_job, fail_job}
use rabbitmq_pika_adapter.Listener.World.{
  basic_ack, basic_nack, Event, did, Env, Settings, Listener, call, count,
}
use rabbitmq_pika_adapter.Listener.Keeps.{settle-keeps, on_done-keeps}
use rabbitmq_pika_adapter.Listener.{
  internal_wrapper, run_job, hand_over, job_for, schedule, settle, on_done, submit, offload_wrapper,
}
use rabbitmq_pika_adapter.Listener.System.{
  System, run_callback, Step, deliver, callback_ends, task_done, run_scheduled, stop, Reach, here,
  next, start,
}

abbrev pub same : ℕ → ℕ → ℕ
same t u = if t == u then 1 else 0

-- An acknowledgement or a rejection of tag `t` that the broker has got.
abbrev pub settles : ℕ → Event → ℕ
settles t (did (basic_ack u)) = same t u
settles t (did (basic_nack u _)) = same t u
settles t _ = 0

abbrev job_weight : ℕ → Job → ℕ
job_weight t (ack_job u) = same t u
job_weight t (fail_job u _ _ _) = same t u

abbrev tag_weight : ℕ → Option ℕ → ℕ
tag_weight t none = 0
tag_weight t (some u) = same t u

abbrev pub has_tag : ℕ → Delivery → ℕ
has_tag t d = tag_weight t d.delivery_tag

abbrev ended_with : ℕ → Delivery × Outcome (Unit {0}) → ℕ
ended_with t (d, _) = has_tag t d

-- The settlements of tag `t` that have happened or can still happen.
abbrev account : ℕ → Listener → ℕ
account t s =
    sum_map (settles t) s.log
    + sum_map (job_weight t) s.scheduled
    + sum_map (has_tag t) s.running
    + sum_map (ended_with t) s.finished

module _ (env : Env) (settings : Settings) (t : ℕ) where
  internal_wrapper-account :
      (d : Delivery) (s : Listener)
      → account t (internal_wrapper env settings d s).1 ≤ account t s + has_tag t d
  unfolding internal_wrapper
  internal_wrapper-account d s = ground arith

  run_job-account :
      (job : Job) (s : Listener)
      → account t (run_job env settings job s).1 ≤ account t s + job_weight t job
  unfolding run_job
  run_job-account (ack_job tag) s = ground arith
  run_job-account (fail_job tag d cfg attempt) s = ground arith

  schedule-account :
      (job : Job) (s : Listener)
      → account t (schedule env settings job s).1 ≤ account t s + job_weight t job
  unfolding schedule hand_over call
  schedule-account job s =
      grind (arith, run_job-account, sum_map-append (job_weight t) s.scheduled (job ∷ []))

  job_weight-job_for :
      (r : Outcome (Unit {0})) (tag : ℕ) (d : Delivery)
      → job_weight t (job_for env settings r tag d) ≡ same t tag
  unfolding job_for
  job_weight-job_for (ok u) tag d = refl
  job_weight-job_for (raised e) tag d = refl

  settle-account :
      (d : Delivery) (r : Outcome (Unit {0})) (s : Listener)
      → account t (settle env settings d r s).1 ≤ account t s + has_tag t d
  settle-account d r s =
      settle-keeps env settings (λ u. account t u ≤ account t s + has_tag t d) d r s
        (λ tag e. omega (
          arith,
          schedule-account (job_for env settings r tag d) s,
          job_weight-job_for r tag d,
          ap (tag_weight t) e,
        ))
        (omega arith)

  on_done-account :
      (d : Delivery) (r : Outcome (Unit {0})) (s : Listener)
      → account t (on_done env settings d r s).1 ≤ account t s + has_tag t d
  unfolding count
  on_done-account d r s =
      on_done-keeps env settings (λ u. account t u ≤ account t s)
        (λ u. account t u ≤ account t s + has_tag t d) d r s (omega arith) (omega arith)
        (λ u k. omega (arith, settle-account d r u))

  run_callback-account :
      (d : Delivery) (s : Listener)
      → account t (run_callback env settings d s) ≤ account t s + has_tag t d
  unfolding run_callback call
  run_callback-account d s = ground arith

  offload_wrapper-account :
      (d : Delivery) (s : Listener)
      → account t (offload_wrapper env settings d s).1 ≤ account t s + has_tag t d
  unfolding offload_wrapper submit count call
  offload_wrapper-account d s = grind (arith, internal_wrapper-account)

  abbrev Fair : System → Type 0
  Fair s = account t s.listener ≤ sum_map (has_tag t) s.delivered

  Step-Fair : {s u : System} → Step env settings s u → Fair s → Fair u
  Step-Fair {s} (deliver d free e) h = rw e (omega (arith, offload_wrapper-account d s.listener))
  Step-Fair {s} (callback_ends d before after e e') h = rw e' (
      omega (
        arith,
        run_callback-account d (record s.listener { running = before ++ after }),
        ap (sum_map (has_tag t)) e,
        sum_map-middle (has_tag t) before d after,
      ))
  Step-Fair {s} (task_done d r before after e e') h = rw e' (
      omega (
        arith,
        on_done-account d r (record s.listener { finished = before ++ after }),
        ap (sum_map (ended_with t)) e,
        sum_map-middle (ended_with t) before (d, r) after,
      ))
  Step-Fair {s} (run_scheduled job rest e e') h = rw e' (
      omega (
        arith,
        run_job-account job (record s.listener { scheduled = rest }),
        ap (sum_map (job_weight t)) e,
      ))
  Step-Fair {s} (stop e) h = rw e h

  Reach-Fair : {s u : System} → Fair s → Reach env settings s u → Fair u
  Reach-Fair h here = h
  Reach-Fair h (next r step) = Step-Fair step (Reach-Fair h r)

  -- Whatever the threads do, and however the calls end, the broker gets at most one acknowledgement
  -- or rejection for each delivery of a tag.
  pub settled_at_most_once :
      (n : ℕ) {u : System}
      → Reach env settings (start n) u
      → sum_map (settles t) u.listener.log ≤ sum_map (has_tag t) u.delivered
  unfolding start
  settled_at_most_once n r = omega (arith, Reach-Fair (omega arith) r)
