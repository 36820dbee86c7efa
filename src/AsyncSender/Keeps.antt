-- ===== src/AsyncSender/Keeps.antt =====
-- `AsyncSender`: what every operation keeps, from what a call, a flag and a batch keep.
use rabbitmq_pika_adapter.Prelude.{
  ℕ, ◌≡◌, Bool, true, false, not, ◌∷◌, ◌&&◌, ◌||◌, Option, List, if◌then◌else◌, String,
}
use rabbitmq_pika_adapter.Outcome.{assertion_error, Outcome, ok, raised, raise, try_except, ◌>>◌}
use rabbitmq_pika_adapter.Outcome.Respects.{
  Respects, IsPreorder, pure-Respects, raise-Respects, then-Respects, try_except-Respects,
}
use rabbitmq_pika_adapter.Value.{Value}
use rabbitmq_pika_adapter.Retry.Floats.{Seconds}
use rabbitmq_pika_adapter.AsyncConnection.{Arguments, target}
use rabbitmq_pika_adapter.AsyncSender.World.{
  Call, connect, open_channel, declare_exchange, publish, gather_all, cancelled_flusher,
  close_channel, close_connection, Env, Settings, Sender, call,
}
use rabbitmq_pika_adapter.AsyncSender.{
  Do, skip, retried, connect_to, start_flusher, do_start, connected, start, flush_confirms,
  flush_round, begin, flush_when_full, publish_now, start_unless_ready, do_publish, forget_on_error,
  send, cancel_flusher, stop_body, stop_finally, stop, batches, key_of, modify, flag,
  of_destination, ready,
}
use rabbitmq_pika_adapter.AsyncSender.Retrying.{retried-Respects}

-- Every call but the await of a publish that is under way.
abbrev pub Other : Call → Type 0
Other (gather_all ns) = Bool × (true ≡ false)
Other _ = Unit {0}

module _ {s : Seconds} (env : Env s) (settings : Settings s) where
  module _ (R : Sender → Sender → Type 0) (order : IsPreorder R) where
    -- What is kept by the calls, the flags and the batches.
    pub record IsKept : Type 0 where
      pub calls : (c : Call) → Other c → Respects R (call env c)
      pub flags :
          (connection channel exchange flusher : Bool) (w : Sender)
          → R w (record w {
            has_connection = connection;
            has_channel = channel;
            has_exchange = exchange;
            has_flusher = flusher;
          })
      pub cancels :
          (w : Sender) → R w (record w { has_flusher = false; log = cancelled_flusher ∷ w.log })
      pub flushes : Respects R (flush_confirms env settings)
      pub batched :
          (body : List ℕ) (key : Value) (w : Sender)
          → R w (flush_when_full env settings (begin env settings body key w)).1

    branch :
        (b : Bool) (m n : Do env settings) (w : Sender)
        → R w (m w).1
        → R w (n w).1
        → R w (if b then m w else n w).1
    branch true m n w p q = p
    branch false m n w p q = q

    module _ (kept : IsKept) where
      connect_to-Respects :
          (r : Outcome (Option Arguments)) → Respects R (connect_to env settings r)
      connect_to-Respects (raised e) = raise-Respects R order (Unit {0}) e
      connect_to-Respects (ok arguments) = kept.calls (connect arguments) tt

      start_flusher-Respects : Respects R (start_flusher env settings)
      start_flusher-Respects w =
          branch
            ((batches env settings && settings.flushes_periodically)
              && (not w.has_flusher || env.flusher_done w.log))
            (modify env settings (λ w. record w { has_flusher = true })) (skip env settings) w
            (kept.flags w.has_connection w.has_channel w.has_exchange true w) (order.reflexive w)

      do_start-Respects : Respects R (do_start env settings)
      unfolding do_start
      do_start-Respects =
          let declares =
            declare_exchange (of_destination env settings "exchange_name")
              (of_destination env settings "exchange_type")
              (flag env settings "exchange_durable" true)
              (flag env settings "exchange_auto_delete" false) in
          let exchange = modify env settings (λ w. record w { has_exchange = true }) in
          let channel = modify env settings (λ w. record w { has_channel = true }) in
          let connection = modify env settings (λ w. record w { has_connection = true }) in
          let opens = call env (open_channel settings.confirm_delivery) in
          let last = exchange >> start_flusher env settings in
          let third = channel >> (call env declares >> last) in
          then-Respects R order (connect_to env settings (target settings.source))
            (connection >> (opens >> third)) (connect_to-Respects (target settings.source))
            (then-Respects R order connection (opens >> third)
              (λ w. kept.flags true w.has_channel w.has_exchange w.has_flusher w)
              (then-Respects R order opens third
                (kept.calls (open_channel settings.confirm_delivery) tt)
                (then-Respects R order channel (call env declares >> last)
                  (λ w. kept.flags w.has_connection true w.has_exchange w.has_flusher w)
                  (then-Respects R order (call env declares) last (kept.calls declares tt) (
                    then-Respects R order exchange (start_flusher env settings)
                      (λ w. kept.flags w.has_connection w.has_channel true w.has_flusher w)
                      start_flusher-Respects)))))

      pub start-Respects : Respects R (start env settings)
      unfolding start
      start-Respects w =
          branch (connected env settings w) (skip env settings)
            (retried env settings (do_start env settings)) w (order.reflexive w)
            (retried-Respects env settings R order (do_start env settings) do_start-Respects w)

      publish_now-Respects :
          (body : List ℕ) (key : Value) → Respects R (publish_now env settings body key)
      unfolding publish_now
      publish_now-Respects body key w =
          let batching : Do env settings =
            λ w. flush_when_full env settings (begin env settings body key w) in
          let publishes = call env (publish body key) in
          branch (not w.has_exchange) (raise assertion_error)
            (λ w. if batches env settings then batching w else publishes w) w (order.reflexive w)
            (branch (batches env settings) batching publishes w (kept.batched body key w)
              (kept.calls (publish body key) tt w))

      start_unless_ready-Respects : Respects R (start_unless_ready env settings)
      start_unless_ready-Respects w =
          branch (ready env settings w) (skip env settings) (start env settings) w
            (order.reflexive w) (start-Respects w)

      do_publish-Respects :
          (body : List ℕ) (key : Option String) → Respects R (do_publish env settings body key)
      unfolding do_publish
      do_publish-Respects body key =
          then-Respects R order (start_unless_ready env settings)
            (publish_now env settings body (key_of env settings key)) start_unless_ready-Respects
            (publish_now-Respects body (key_of env settings key))

      forget_on_error-kept :
          (w : Sender) (r : Outcome (Unit {0}) × Sender)
          → R w r.1
          → R w (forget_on_error env settings r).1
      forget_on_error-kept w (ok u, v) h = h
      forget_on_error-kept w (raised e, v) h =
          order.transitive h (kept.flags false false false v.has_flusher v)

      pub send-Respects :
          (body : Outcome (List ℕ)) (key : Option String) → Respects R (send env settings body key)
      unfolding send
      send-Respects (raised e) key w = order.reflexive w
      send-Respects (ok body) key w =
          forget_on_error-kept w (retried env settings (do_publish env settings body key) w) (
            retried-Respects env settings R order (do_publish env settings body key)
              (do_publish-Respects body key) w)

      flush_quietly-Respects :
          Respects R (try_except (flush_confirms env settings) (λ e. skip env settings))
      flush_quietly-Respects =
          try_except-Respects R order (flush_confirms env settings) (λ e. skip env settings)
            kept.flushes (λ e. pure-Respects R order tt)

      pub flush_round-Respects : Respects R (flush_round env settings)
      flush_round-Respects w =
          branch (connected env settings w)
            (try_except (flush_confirms env settings) (λ e. skip env settings)) (skip env settings)
            w (flush_quietly-Respects w) (order.reflexive w)

      close_channel-Respects : Respects R (λ w.
          if w.has_channel && not (env.channel_closed w.log)
          then call env close_channel w
          else skip env settings w)
      close_channel-Respects w =
          branch (w.has_channel && not (env.channel_closed w.log)) (call env close_channel)
            (skip env settings) w (kept.calls close_channel tt w) (order.reflexive w)

      cancel_flusher-Respects : Respects R (cancel_flusher env settings)
      cancel_flusher-Respects w =
          branch w.has_flusher
            (λ v. (ok tt, record v { has_flusher = false; log = cancelled_flusher ∷ v.log }))
            (skip env settings) w (kept.cancels w) (order.reflexive w)

      stop_body-Respects : Respects R (stop_body env settings)
      unfolding stop_body
      stop_body-Respects =
          let flusher = cancel_flusher env settings in
          let closes : Do env settings = λ w.
            if w.has_channel && not (env.channel_closed w.log)
            then call env close_channel w
            else skip env settings w in
          then-Respects R order (try_except (flush_confirms env settings) (λ e. skip env settings))
            (flusher >> closes) flush_quietly-Respects
            (then-Respects R order flusher closes cancel_flusher-Respects close_channel-Respects)

      stop_finally-Respects : Respects R (stop_finally env settings)
      unfolding stop_finally
      stop_finally-Respects =
          let drops =
            modify env settings (λ w. record w { has_channel = false; has_exchange = false }) in
          let closes : Do env settings = λ w.
            if connected env settings w then call env close_connection w else skip env settings w in
          let forgets = modify env settings (λ w. record w { has_connection = false }) in
          then-Respects R order drops (closes >> forgets)
            (λ w. kept.flags w.has_connection false false w.has_flusher w)
            (then-Respects R order closes forgets
              (λ w.
                branch (connected env settings w) (call env close_connection) (skip env settings) w
                  (kept.calls close_connection tt w) (order.reflexive w))
              (λ w. kept.flags false w.has_channel w.has_exchange w.has_flusher w))

      pub stop-Respects : Respects R (stop env settings)
      unfolding stop
      stop-Respects w =
          order.transitive (stop_body-Respects w)
            (stop_finally-Respects (stop_body env settings w).1)
