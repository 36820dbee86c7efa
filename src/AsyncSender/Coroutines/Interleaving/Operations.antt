-- ===== src/AsyncSender/Coroutines/Interleaving/Operations.antt =====
-- The operations of the sender await what they take over.
use rabbitmq_pika_adapter.Prelude.{
  ℕ, zero, suc, ◌+◌, refl, String, true, false, not, ◌&&◌, Option, none, some, List, [], arith,
}
use rabbitmq_pika_adapter.Outcome.{
  assertion_error, runtime_error, overflow_error, Outcome, ok, raised,
}
use rabbitmq_pika_adapter.Value.{Value}
use rabbitmq_pika_adapter.Retry.Floats.{Seconds}
use rabbitmq_pika_adapter.Retry.{gives_up, delay_for_attempt}
use rabbitmq_pika_adapter.AsyncConnection.{Arguments, target}
use rabbitmq_pika_adapter.AsyncSender.World.{
  connect, publish, close_channel, close_connection, Env, Settings, Sender,
}
use rabbitmq_pika_adapter.AsyncSender.{
  policy, batches, connected, ready, key_of, last_error, start_flusher,
}
use rabbitmq_pika_adapter.AsyncSender.Runs.{Operation, starts, flushes, stops, sends}
use rabbitmq_pika_adapter.AsyncSender.Coroutines.{
  Coroutine, finished, settle, attempts, retried, after_delay, connect_to, do_start, start,
  flush_round, is_full, publish_now, do_publish, forget_on_error, send, stop_body, stop_finally,
  stop, coroutine,
}
use rabbitmq_pika_adapter.AsyncSender.{cancel_flusher}
use rabbitmq_pika_adapter.AsyncSender.Confirms.{begins, awaits}
use rabbitmq_pika_adapter.AsyncSender.Coroutines.Interleaving.Settling.{
  Moves, IsSettling, ends, then-IsSettling, then_do-IsSettling, if-IsSettling, branches-IsSettling,
  quiet-IsSettling, changes-IsSettling, suppressed-IsSettling, call-IsSettling, flags,
  flush_confirms-IsSettling, begin-Moves,
}

module _ {s : Seconds} (env : Env s) (settings : Settings s) where
  connect_to-IsSettling : (r : Outcome (Option Arguments)) → IsSettling (connect_to env settings r)
  connect_to-IsSettling (raised e) = ends (raised e)
  connect_to-IsSettling (ok arguments) = call-IsSettling (connect arguments) (λ n. refl)

  settle-IsSettling :
      (attempt : ℕ) (r : Outcome (Unit {0})) (again : Coroutine)
      → IsSettling again
      → IsSettling (settle env settings attempt r again)
  settle-IsSettling attempt (ok u) again h = ends (ok u)
  settle-IsSettling attempt (raised e) again h =
      let delay = delay_for_attempt s (policy env settings) (attempt + 1) (env.uniform attempt) in
      if-IsSettling (gives_up s (policy env settings) attempt) (finished (raised e))
        (after_delay env settings delay again) (ends (raised e)) (delayed delay)
    where
      delayed : (o : Option s.T) → IsSettling (after_delay env settings o again)
      delayed none = ends (raised overflow_error)
      delayed (some d) = h

  attempts-IsSettling :
      (m : Coroutine)
      → IsSettling m
      → (fuel attempt : ℕ) → IsSettling (attempts env settings fuel attempt m)
  unfolding attempts
  attempts-IsSettling m h zero attempt = ends (raised runtime_error)
  attempts-IsSettling m h (suc fuel) attempt =
      then_do-IsSettling m
        (λ r. settle env settings attempt r (attempts env settings fuel (attempt + 1) m)) h
        (λ r.
          settle-IsSettling attempt r (attempts env settings fuel (attempt + 1) m)
            (attempts-IsSettling m h fuel (attempt + 1)))

  retried-IsSettling : (m : Coroutine) → IsSettling m → IsSettling (retried env settings m)
  unfolding retried
  retried-IsSettling m h = attempts-IsSettling m h (suc settings.max_attempts) 1

  cancel_flusher-Moves : (w : Sender) → Moves [] [] w (cancel_flusher env settings w).1
  unfolding begins awaits
  cancel_flusher-Moves w others h = record {
    begun_once = λ n. ground (arith, h.begun_once n);
    accounted = λ n. ground (arith, h.accounted n);
  }

  start_flusher-Moves : (w : Sender) → Moves [] [] w (start_flusher env settings w).1
  start_flusher-Moves w others h = record {
    begun_once = ground (arith, h.begun_once);
    accounted = ground (arith, h.accounted);
  }

  do_start-IsSettling : IsSettling (do_start env settings)
  unfolding do_start
  do_start-IsSettling = then-IsSettling _ _ (connect_to-IsSettling (target settings.source)) (
      then-IsSettling _ _
        (changes-IsSettling _
          (λ w. flags env settings true w.has_channel w.has_exchange w.has_flusher w))
        (then-IsSettling _ _ (call-IsSettling _ (λ n. refl)) (
          then-IsSettling _ _
            (changes-IsSettling _
              (λ w. flags env settings w.has_connection true w.has_exchange w.has_flusher w))
            (then-IsSettling _ _ (call-IsSettling _ (λ n. refl)) (
              then-IsSettling _ _
                (changes-IsSettling _
                  (λ w. flags env settings w.has_connection w.has_channel true w.has_flusher w))
                (changes-IsSettling _ start_flusher-Moves))))))

  start-IsSettling : IsSettling (start env settings)
  unfolding start
  start-IsSettling =
      branches-IsSettling (connected env settings) _ _ (ends (ok tt))
        (retried-IsSettling _ do_start-IsSettling)

  flush_round-IsSettling : IsSettling (flush_round env settings)
  unfolding flush_round
  flush_round-IsSettling =
      branches-IsSettling (connected env settings) _ _
        (suppressed-IsSettling _ (flush_confirms-IsSettling env settings)) (ends (ok tt))

  publish_now-IsSettling :
      (body : List ℕ) (key : Value) → IsSettling (publish_now env settings body key)
  unfolding publish_now
  publish_now-IsSettling body key =
      branches-IsSettling (λ w. not w.has_exchange) _ _ (ends (raised assertion_error))
        (if-IsSettling (batches env settings) _ _
          (then-IsSettling _ _ (changes-IsSettling _ (begin-Moves env settings body key)) (
            branches-IsSettling (is_full env settings) _ _ (flush_confirms-IsSettling env settings)
              (ends (ok tt))))
          (call-IsSettling (publish body key) (λ n. refl)))

  do_publish-IsSettling :
      (body : List ℕ) (routing_key : Option String)
      → IsSettling (do_publish env settings body routing_key)
  unfolding do_publish
  do_publish-IsSettling body routing_key =
      then-IsSettling _ _
        (branches-IsSettling (ready env settings) _ _ (ends (ok tt)) start-IsSettling)
        (publish_now-IsSettling body (key_of env settings routing_key))

  send-IsSettling :
      (body : Outcome (List ℕ)) (routing_key : Option String)
      → IsSettling (send env settings body routing_key)
  unfolding send
  send-IsSettling (raised e) routing_key = ends (raised e)
  send-IsSettling (ok body) routing_key =
      then_do-IsSettling _ (forget_on_error env settings)
        (retried-IsSettling _ (do_publish-IsSettling body routing_key)) forgets
    where
      forgets : (r : Outcome (Unit {0})) → IsSettling (forget_on_error env settings r)
      forgets (ok u) = ends (ok u)
      forgets (raised e) =
          quiet-IsSettling _ (raised e) (λ w. flags env settings false false false w.has_flusher w)

  stop_body-IsSettling : IsSettling (stop_body env settings)
  unfolding stop_body
  stop_body-IsSettling =
      then-IsSettling _ _ (suppressed-IsSettling _ (flush_confirms-IsSettling env settings)) (
        then-IsSettling _ _ (changes-IsSettling _ cancel_flusher-Moves) (
          branches-IsSettling (λ w. w.has_channel && not (env.channel_closed w.log)) _ _
            (call-IsSettling close_channel (λ n. refl)) (ends (ok tt))))

  stop_finally-IsSettling : IsSettling (stop_finally env settings)
  unfolding stop_finally
  stop_finally-IsSettling =
      then-IsSettling _ _
        (changes-IsSettling _
          (λ w. flags env settings w.has_connection false false w.has_flusher w))
        (then-IsSettling _ _
          (branches-IsSettling (connected env settings) _ _
            (call-IsSettling close_connection (λ n. refl)) (ends (ok tt)))
          (changes-IsSettling _
            (λ w. flags env settings false w.has_channel w.has_exchange w.has_flusher w)))

  stop-IsSettling : IsSettling (stop env settings)
  unfolding stop
  stop-IsSettling = then_do-IsSettling (stop_body env settings) _ stop_body-IsSettling (λ r.
      then_do-IsSettling (stop_finally env settings) (λ r2. finished (last_error env settings r r2))
        stop_finally-IsSettling (λ r2. ends (last_error env settings r r2)))

  pub coroutine-IsSettling : (o : Operation) → IsSettling (coroutine env settings o)
  unfolding coroutine
  coroutine-IsSettling starts = start-IsSettling
  coroutine-IsSettling flushes = flush_round-IsSettling
  coroutine-IsSettling stops = stop-IsSettling
  coroutine-IsSettling (sends body routing_key) = send-IsSettling body routing_key
