-- ===== src/AsyncListener/Tasks/Permits.antt =====
-- The semaphore: permits and callbacks under way add up to `max_concurrency`.
use rabbitmq_pika_adapter.Prelude.{
  String, Bool, true, false, ℕ, suc, ◌+◌, ◌≤◌, ◌≡◌, Option, none, some, List, ◌∷◌, ◌++◌, arith,
  length, length-append, ap, ◌∙◌,
}
use rabbitmq_pika_adapter.Outcome.{Outcome, pure, ◌>>◌}
use rabbitmq_pika_adapter.Outcome.Respects.{
  Respects, IsPreorder, pure-Respects, then-Respects, bind-Respects, async_try-Respects,
}
use rabbitmq_pika_adapter.DeadLettering.{retry_attempt_from_headers}
use rabbitmq_pika_adapter.Listener.{poison_queue}
use rabbitmq_pika_adapter.AsyncListener.World.{
  Call, user_callback, ack, publish, out_message, Message, Env, Settings, Listener, call,
}
use rabbitmq_pika_adapter.AsyncListener.{
  assert_channel, publish_and_ack, dead_letter_to, poison_or_nack, on_failure, after_callback,
  run_handler, released, reject, config, unless_done, as_action, ack_unless_auto,
}
use rabbitmq_pika_adapter.AsyncListener.Tasks.{
  System, Step, arrives, begins, abandons, ends, stops, Reach, here, next, started,
}

-- What the handler leaves alone before its `finally`.
record SameTasks (s t : Listener) : Type 0 where
  semaphore : t.semaphore ≡ s.semaphore
  running : t.running ≡ s.running
  waiting : t.waiting ≡ s.waiting

module _ (env : Env) (settings : Settings) where
  same_order : IsPreorder SameTasks
  same_order = record { reflexive = λ s. ground arith; transitive = λ p q. ground arith }

  call-SameTasks : (c : Call) → Respects SameTasks (call env c)
  unfolding call
  call-SameTasks c s = ground arith

  assert_channel-SameTasks : Respects SameTasks (assert_channel env settings)
  assert_channel-SameTasks s = ground arith

  publish_and_ack-SameTasks :
      (queue : String) (m : Message) → Respects SameTasks (publish_and_ack env settings queue m)
  unfolding publish_and_ack
  publish_and_ack-SameTasks queue m =
      let acks = call env (ack m.tag) >> pure true in
      let sends = call env (publish (out_message m) queue) in
      then-Respects SameTasks same_order (assert_channel env settings) (sends >> acks)
        assert_channel-SameTasks
        (then-Respects SameTasks same_order sends acks
          (call-SameTasks (publish (out_message m) queue))
          (then-Respects SameTasks same_order (call env (ack m.tag)) (pure true)
            (call-SameTasks (ack m.tag)) (pure-Respects SameTasks same_order true)))

  dead_letter_to-SameTasks :
      (queue : String) (m : Message) → Respects SameTasks (dead_letter_to env settings queue m)
  unfolding dead_letter_to
  dead_letter_to-SameTasks queue m =
      async_try-Respects SameTasks same_order (publish_and_ack env settings queue m)
        (λ e. pure false) (publish_and_ack-SameTasks queue m)
        (λ e. pure-Respects SameTasks same_order false)

  reject-SameTasks : (m : Message) → Respects SameTasks (reject env settings m)
  unfolding call
  reject-SameTasks m s = ground arith

  unless_done-SameTasks :
      (m : Message) (b : Bool) → Respects SameTasks (unless_done env settings m b)
  unless_done-SameTasks m true = pure-Respects SameTasks same_order tt
  unless_done-SameTasks m false = reject-SameTasks m

  poison_or_nack-SameTasks :
      (o : Option String) (m : Message) → Respects SameTasks (poison_or_nack env settings o m)
  poison_or_nack-SameTasks none m = reject-SameTasks m
  poison_or_nack-SameTasks (some queue) m =
      bind-Respects SameTasks same_order (dead_letter_to env settings queue m)
        (unless_done env settings m) (dead_letter_to-SameTasks queue m) (unless_done-SameTasks m)

  on_failure-SameTasks : (m : Message) → Respects SameTasks (on_failure env settings m)
  unfolding on_failure
  on_failure-SameTasks m s =
      let poison = poison_queue (config env settings) (retry_attempt_from_headers m.headers) in
      ground (arith, poison_or_nack-SameTasks poison m s)

  after_callback-SameTasks :
      (m : Message) (r : Outcome (Unit {0})) → Respects SameTasks (after_callback env settings m r)
  unfolding after_callback
  after_callback-SameTasks m r =
      let finish = as_action env settings r >> ack_unless_auto env settings m in
      async_try-Respects SameTasks same_order finish (λ e. on_failure env settings m) (acked m r)
        (λ e. on_failure-SameTasks m)
    where
      acked :
          (m : Message) (r : Outcome (Unit {0}))
          → Respects SameTasks (as_action env settings r >> ack_unless_auto env settings m)
      acked m r s = ground (arith, call-SameTasks (ack m.tag) s)

  -- What a task does to the semaphore and to the set of running tasks.
  run_handler_effect :
      (m : Message) (s : Listener)
      → let t = run_handler env settings m s in
        (t.semaphore ≡ released env settings s.semaphore) × (t.running ≡ s.running)
  unfolding run_handler
  run_handler_effect m s =
      let (r, s1) = call env (user_callback m) s in
      let called = call-SameTasks (user_callback m) s in
      let settled = after_callback-SameTasks m r s1 in
      (
        ap (released env settings) (settled.semaphore ∙ called.semaphore),
        settled.running ∙ called.running,
      )

  pub run_handler_kept :
      (m : Message) (s : Listener)
      → let t = run_handler env settings m s in (t.waiting ≡ s.waiting) × (t.running ≡ s.running)
  unfolding run_handler
  run_handler_kept m s =
      let (r, s1) = call env (user_callback m) s in
      let called = call-SameTasks (user_callback m) s in
      let settled = after_callback-SameTasks m r s1 in
      (settled.waiting ∙ called.waiting, settled.running ∙ called.running)

  -- Permits, where there is a semaphore, and callbacks under way.
  abbrev Total : ℕ → Option ℕ → ℕ → Type 0
  Total n none running = running ≤ n
  Total n (some permits) running = permits + running ≡ n

  released-Total :
      (n : ℕ) (o : Option ℕ) (running : ℕ)
      → Total n o (suc running)
      → Total n (released env settings o) running
  released-Total n none running h = omega arith
  released-Total n (some permits) running h = omega arith

  Total-bounded : (n : ℕ) (o : Option ℕ) (running : ℕ) → Total n o running → running ≤ n
  Total-bounded n none running h = h
  Total-bounded n (some permits) running h = omega arith

  Total-longer :
      (n : ℕ) (o : Option ℕ) (before : List Message) (m : Message) (after : List Message)
      → Total n o (length (before ++ m ∷ after))
      → Total n o (suc (length (before ++ after)))
  Total-longer n o before m after h =
      let longer : length (before ++ m ∷ after) ≡ suc (length (before ++ after)) =
        omega (arith, length-append before (m ∷ after), length-append before after) in
      rw longer at h

  abbrev Holds : ℕ → Listener → Type 0
  Holds n s = Total n s.semaphore (length s.running)

  Step-Holds :
      (n : ℕ) {s t : System} → Step env settings s t → Holds n s.listener → Holds n t.listener
  Step-Holds n {s} (arrives m e) h = rw e h
  Step-Holds n {s} (begins m before after permits waits free e) h =
      rw e (omega (arith, rw free at h))
  Step-Holds n {s} (abandons m before after waits e) h = rw e h
  Step-Holds n {s} (ends m before after runs e) h =
      let moved = record s.listener { running = before ++ after } in
      let (semaphore, running) = run_handler_effect m moved in
      rw (e, semaphore, running)
        (released-Total n s.listener.semaphore (length (before ++ after))
          (Total-longer n s.listener.semaphore before m after (rw runs at h)))
  Step-Holds n {s} (stops e) h =
      rw e (Total-bounded n s.listener.semaphore (length s.listener.running) h)

  Reach-Holds :
      {t : System}
      → Reach env settings (started settings) t
      → Holds settings.max_concurrency t.listener
  unfolding started
  Reach-Holds here = omega arith
  Reach-Holds (next r step) = Step-Holds settings.max_concurrency step (Reach-Holds r)

  -- Whatever the tasks do, and however the calls end or are cancelled, no more callbacks are under way
  -- than `max_concurrency`, also while the listener stops.
  pub callbacks_bounded :
      {t : System}
      → Reach env settings (started settings) t
      → length t.listener.running ≤ settings.max_concurrency
  callbacks_bounded {t} r =
      Total-bounded settings.max_concurrency t.listener.semaphore (length t.listener.running)
        (Reach-Holds r)

  -- As long as there is a semaphore, no permit is lost or made up.
  pub async_permits_conserved :
      {t : System} {permits : ℕ}
      → Reach env settings (started settings) t
      → t.listener.semaphore ≡ some permits
      → permits + length t.listener.running ≡ settings.max_concurrency
  async_permits_conserved {t} r e = let total = Reach-Holds r in rw e at total
