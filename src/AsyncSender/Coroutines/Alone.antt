-- ===== src/AsyncSender/Coroutines/Alone.antt =====
-- A coroutine that nothing interrupts does what the operation does.
use rabbitmq_pika_adapter.Prelude.{
  ℕ, ◌≡◌, refl, ◌∙◌, String, Bool, true, false, not, ◌&&◌, Option, List, [], ◌∷◌, if◌then◌else◌,
  arith,
}
use rabbitmq_pika_adapter.Outcome.{
  Exception, assertion_error, Outcome, ok, raised, try_except, handle,
}
use rabbitmq_pika_adapter.Value.{Value}
use rabbitmq_pika_adapter.Retry.Floats.{Seconds}
use rabbitmq_pika_adapter.AsyncConnection.{Arguments, target}
use rabbitmq_pika_adapter.AsyncSender.World.{
  Call, publish, Env, Settings, Sender, call, open_channel, close_channel, close_connection,
}
use rabbitmq_pika_adapter.AsyncSender.{
  Do, policy, of_destination, flag, connected, batches, begin, ready, key_of, ended, last_error,
}
use rabbitmq_pika_adapter.AsyncSender as Sequential
use rabbitmq_pika_adapter.AsyncSender.Runs.{Operation, starts, flushes, stops, sends, perform}
use rabbitmq_pika_adapter.AsyncSender.Coroutines.{
  Coroutine, finished, then_do, ◌then◌, returns, branches, suppressed, retried, connect_to,
  do_start, start, gather, flush_confirms, flush_round, is_full, publish_now, do_publish,
  forget_on_error, send, stop_body, stop_finally, stop, coroutine, run_alone, awaits_call, changes,
}
use rabbitmq_pika_adapter.AsyncSender.Coroutines.Sequences.{
  then_do-alone, then-alone_eq, if-alone_eq, retried-alone,
}

module _ {s : Seconds} (env : Env s) (settings : Settings s) where
  abbrev alone : Coroutine → Do env settings
  alone = run_alone env settings

  connect_to-alone :
      (r : Outcome (Option Arguments)) (w : Sender)
      → alone (connect_to env settings r) w ≡ Sequential.connect_to env settings r w
  unfolding run_alone
  connect_to-alone (raised e) w = refl
  connect_to-alone (ok arguments) w = refl

  abbrev change : (Sender → Sender) → Do env settings
  change f w = (ok tt, f w)

  changes-alone : (f : Sender → Sender) (w : Sender) → alone (changes f) w ≡ change f w
  unfolding run_alone
  changes-alone f w = refl

  call-alone : (c : Call) (w : Sender) → alone (awaits_call c) w ≡ call env c w
  unfolding run_alone
  call-alone c w = refl

  start_flusher-alone :
      (w : Sender)
      → alone (changes (λ v. (Sequential.start_flusher env settings v).1)) w
        ≡ Sequential.start_flusher env settings w
  unfolding run_alone
  start_flusher-alone w = ground arith

  do_start-alone :
      (w : Sender) → alone (do_start env settings) w ≡ Sequential.do_start env settings w
  unfolding do_start Sequential.do_start
  do_start-alone = then-alone_eq env settings _ _ _ _ (connect_to-alone (target settings.source)) (
      then-alone_eq env settings _ _ _ _ (changes-alone (λ w. record w { has_connection = true })) (
        then-alone_eq env settings _ _ _ _ (call-alone (open_channel settings.confirm_delivery)) (
          then-alone_eq env settings _ _ _ _ (changes-alone (λ w. record w { has_channel = true }))
            (then-alone_eq env settings _ _ _ _ (call-alone _) (
              then-alone_eq env settings _ _ _ _
                (changes-alone (λ w. record w { has_exchange = true })) start_flusher-alone)))))

  gather-alone :
      (ns : List ℕ) (w : Sender)
      → alone (gather env settings ns) w ≡ Sequential.gather env settings ns w
  unfolding gather Sequential.gather run_alone
  gather-alone [] w = refl
  gather-alone (n ∷ ns) w = refl

  flush_confirms-alone :
      (w : Sender)
      → alone (flush_confirms env settings) w ≡ Sequential.flush_confirms env settings w
  unfolding flush_confirms Sequential.flush_confirms run_alone
  flush_confirms-alone w = gather-alone w.pending (record w { pending = [] })

  returns-alone : (w : Sender) → alone returns w ≡ (ok tt, w)
  unfolding run_alone
  returns-alone w = refl

  suppressed-alone :
      (m : Coroutine) (p : Do env settings)
      → ((w : Sender) → alone m w ≡ p w)
      → (w : Sender) → alone (suppressed m) w ≡ try_except p (λ e. Sequential.skip env settings) w
  unfolding run_alone
  suppressed-alone m p same w =
      then_do-alone env settings m (λ r. returns) w ∙ rw (same w) (handled (p w).0 (p w).1)
    where
      handled :
          (r : Outcome (Unit {0})) (v : Sender)
          → alone returns v ≡ handle r (λ e. Sequential.skip env settings) v
      handled (ok u) v = refl
      handled (raised e) v = refl

  start-alone : (w : Sender) → alone (start env settings) w ≡ Sequential.start env settings w
  unfolding start Sequential.start
  start-alone =
      if-alone_eq env settings (connected env settings) _ _ _ _ returns-alone
        (retried-alone env settings _ _ do_start-alone)

  flush_round-alone :
      (w : Sender) → alone (flush_round env settings) w ≡ Sequential.flush_round env settings w
  unfolding flush_round
  flush_round-alone =
      if-alone_eq env settings (connected env settings) _ _ _ _
        (suppressed-alone _ _ flush_confirms-alone) returns-alone

  raises-alone : (e : Exception) (w : Sender) → alone (finished (raised e)) w ≡ (raised e, w)
  unfolding run_alone
  raises-alone e w = refl

  module _ (body : List ℕ) (key : Value) where
    abbrev batches_it : Coroutine
    batches_it =
        changes (begin env settings body key)
        then branches (is_full env settings) (flush_confirms env settings) returns

    batches_it-alone :
        (w : Sender)
        → alone batches_it w
          ≡ Sequential.flush_when_full env settings (begin env settings body key w)
    batches_it-alone =
        then-alone_eq env settings _ _ _ _ (changes-alone (begin env settings body key)) (
          if-alone_eq env settings (is_full env settings) _ _ _ _ flush_confirms-alone
            returns-alone)

    published-alone :
        (b : Bool) (w : Sender)
        → alone (if b then batches_it else awaits_call (publish body key)) w ≡ (
            if b
            then Sequential.flush_when_full env settings (begin env settings body key w)
            else call env (publish body key) w)
    published-alone true w = batches_it-alone w
    published-alone false w = call-alone (publish body key) w

    publish_now-alone :
        (w : Sender)
        → alone (publish_now env settings body key) w
          ≡ Sequential.publish_now env settings body key w
    unfolding publish_now Sequential.publish_now
    publish_now-alone =
        if-alone_eq env settings (λ w. not w.has_exchange) _ _ _ _ (raises-alone assertion_error)
          (published-alone (batches env settings))

  do_publish-alone :
      (body : List ℕ) (routing_key : Option String) (w : Sender)
      → alone (do_publish env settings body routing_key) w
        ≡ Sequential.do_publish env settings body routing_key w
  unfolding do_publish Sequential.do_publish
  do_publish-alone body routing_key =
      then-alone_eq env settings _ _ _ _
        (if-alone_eq env settings (ready env settings) _ _ _ _ returns-alone start-alone)
        (publish_now-alone body (key_of env settings routing_key))

  send-alone :
      (body : Outcome (List ℕ)) (routing_key : Option String) (w : Sender)
      → alone (send env settings body routing_key) w
        ≡ Sequential.send env settings body routing_key w
  unfolding send Sequential.send run_alone
  send-alone (raised e) routing_key w = refl
  send-alone (ok body) routing_key w =
      then_do-alone env settings (retried env settings (do_publish env settings body routing_key))
        (forget_on_error env settings) w
      ∙ rw (retried-alone env settings _ _ (do_publish-alone body routing_key) w) (
          forgotten
            (Sequential.retried env settings (Sequential.do_publish env settings body routing_key)
              w).0
            (Sequential.retried env settings (Sequential.do_publish env settings body routing_key)
              w).1)
    where
      forgotten :
          (r : Outcome (Unit {0})) (v : Sender)
          → alone (forget_on_error env settings r) v
            ≡ Sequential.forget_on_error env settings (r, v)
      forgotten (ok u) v = refl
      forgotten (raised e) v = refl

  cancel_flusher-alone :
      (w : Sender)
      → alone (changes (λ v. (Sequential.cancel_flusher env settings v).1)) w
        ≡ Sequential.cancel_flusher env settings w
  unfolding run_alone
  cancel_flusher-alone w = ground arith

  stop_body-alone :
      (w : Sender) → alone (stop_body env settings) w ≡ Sequential.stop_body env settings w
  unfolding stop_body Sequential.stop_body
  stop_body-alone = then-alone_eq env settings _ _ _ _ (suppressed-alone _ _ flush_confirms-alone) (
      then-alone_eq env settings _ _ _ _ (cancel_flusher-alone) (
        if-alone_eq env settings (λ w. w.has_channel && not (env.channel_closed w.log)) _ _ _ _
          (call-alone close_channel) returns-alone))

  stop_finally-alone :
      (w : Sender) → alone (stop_finally env settings) w ≡ Sequential.stop_finally env settings w
  unfolding stop_finally Sequential.stop_finally
  stop_finally-alone =
      then-alone_eq env settings _ _ _ _
        (changes-alone (λ w. record w { has_channel = false; has_exchange = false }))
        (then-alone_eq env settings _ _ _ _
          (if-alone_eq env settings (connected env settings) _ _ _ _ (call-alone close_connection)
            returns-alone)
          (changes-alone (λ w. record w { has_connection = false })))

  stop-alone : (w : Sender) → alone (stop env settings) w ≡ Sequential.stop env settings w
  unfolding stop Sequential.stop run_alone
  stop-alone w =
      let (r, v) = Sequential.stop_body env settings w in
      then_do-alone env settings (stop_body env settings)
        (λ r. then_do (stop_finally env settings) (λ r2. finished (last_error env settings r r2))) w
      ∙ rw (stop_body-alone w) (
          then_do-alone env settings (stop_finally env settings)
            (λ r2. finished (last_error env settings r r2)) v
          ∙ rw (stop_finally-alone v) refl)

  -- A coroutine of the sender that runs from its begin to its end without another one between does, and
  -- returns, what the operation does.
  pub coroutine-alone :
      (o : Operation) (w : Sender)
      → run_alone env settings (coroutine env settings o) w ≡ perform env settings o w
  unfolding coroutine perform
  coroutine-alone starts w = start-alone w
  coroutine-alone flushes w = flush_round-alone w
  coroutine-alone stops w = stop-alone w
  coroutine-alone (sends body routing_key) w = send-alone body routing_key w
