-- ===== src/AsyncSender/Stopping.antt =====
-- `AsyncSender`: what `stop` leaves.
use rabbitmq_pika_adapter.Prelude.{
  ℕ, ◌≡◌, refl, ◌∙◌, not, ◌&&◌, if◌then◌else◌, if_ind, ap, List, [], arith, false, sum_map,
}
use rabbitmq_pika_adapter.Retry.Floats.{Seconds}
use rabbitmq_pika_adapter.AsyncSender.World.{
  Call, close_channel, close_connection, Env, Settings, Sender, call,
}
use rabbitmq_pika_adapter.Outcome.{Outcome, ok, raised, handle, try_except}
use rabbitmq_pika_adapter.AsyncSender.{
  Do, skip, cancel_flusher, flush_confirms, stop, stop_body, stop_finally,
}
use rabbitmq_pika_adapter.AsyncSender.Keeps.{stop-Respects}
use rabbitmq_pika_adapter.AsyncSender.Pending.{flush_confirms-pending}
use rabbitmq_pika_adapter.AsyncSender.Runs.{Operation, fresh, run}
use rabbitmq_pika_adapter.AsyncSender.Confirms.{
  same, call-Calls, once_below, times_awaited, IsBalanced, StaysBalanced, balanced_order,
  balanced_kept, run-IsBalanced,
}

module _ {s : Seconds} (env : Env s) (settings : Settings s) where
  -- What `stop` leaves behind.
  pub record IsStopped (w : Sender) : Type 0 where
    pub no_channel : w.has_channel ≡ false
    pub no_exchange : w.has_exchange ≡ false
    pub no_flusher : w.has_flusher ≡ false
    pub nothing_pending : w.pending ≡ []

  call-flusher : (c : Call) (w : Sender) → (call env c w).1.has_flusher ≡ w.has_flusher
  unfolding call
  call-flusher c w = ground arith

  call-channel :
      (c : Call) (w : Sender)
      → let v = (call env c w).1 in
        (v.has_channel ≡ w.has_channel) × (v.has_exchange ≡ w.has_exchange)
  unfolding call
  call-channel c w = ground arith

  flushed_quietly :
      (w : Sender)
      → try_except (flush_confirms env settings) (λ e. skip env settings) w
        ≡ (ok tt, (flush_confirms env settings w).1)
  flushed_quietly w = handled (flush_confirms env settings w).0 (flush_confirms env settings w).1
    where
      handled :
          (r : Outcome (Unit {0})) (v : Sender) → handle r (λ e. skip env settings) v ≡ (ok tt, v)
      handled (ok u) v = refl
      handled (raised e) v = refl

  cancel_flusher_lem :
      (w : Sender)
      → let (r, v) = cancel_flusher env settings w in
        (r ≡ ok tt) × (v.pending ≡ w.pending) × (v.has_flusher ≡ false)
  cancel_flusher_lem w = ground arith

  abbrev closes : Do env settings
  closes w =
      if w.has_channel && not (env.channel_closed w.log)
      then call env close_channel w
      else skip env settings w

  closes_lem :
      (w : Sender) → ((closes w).1.pending ≡ w.pending) × ((closes w).1.has_flusher ≡ w.has_flusher)
  closes_lem w =
      if_ind
        (λ (r : Outcome (Unit {0}) × Sender).
          (r.1.pending ≡ w.pending) × (r.1.has_flusher ≡ w.has_flusher))
        (w.has_channel && not (env.channel_closed w.log))
        (λ open_.
          ((call-Calls env settings close_channel w).pending_same, call-flusher close_channel w))
        (λ closed. (refl, refl))

  stop_body_lem :
      (w : Sender)
      → let v = (stop_body env settings w).1 in (v.pending ≡ []) × (v.has_flusher ≡ false)
  unfolding stop_body
  stop_body_lem w =
      let flushed = (flush_confirms env settings w).1 in
      let none_left = flush_confirms-pending env settings w in
      let (returned, same_pending, no_flusher) = cancel_flusher_lem flushed in
      let (kept_pending, kept_flusher) = closes_lem (cancel_flusher env settings flushed).1 in
      rw (flushed_quietly w)
        (rw returned (kept_pending ∙ (same_pending ∙ none_left), kept_flusher ∙ no_flusher))

  stop_finally_lem :
      (w : Sender)
      → w.pending ≡ []
      → w.has_flusher ≡ false
      → IsStopped (stop_finally env settings w).1
  unfolding stop_finally
  stop_finally_lem w p q =
      let dropped = record w { has_channel = false; has_exchange = false } in
      let closing = call-Calls env settings close_connection dropped in
      record {
        no_channel = ground (arith, (call-channel close_connection dropped).0);
        no_exchange = ground (arith, (call-channel close_connection dropped).1);
        no_flusher = ground (arith, call-flusher close_connection dropped);
        nothing_pending = ground (arith, closing.pending_same);
      }

  stop_lem : (w : Sender) → IsStopped (stop env settings w).1
  unfolding stop
  stop_lem w = let (p, q) = stop_body_lem w in stop_finally_lem (stop_body env settings w).1 p q

  -- After operations that ran one after another, and a `stop`, whatever their calls do: the sender has no channel,
  -- exchange or flusher and nothing is pending, and every publish that was ever begun was among those of
  -- exactly one `gather` that has ended. Where a `gather` raised, the end of its other publishes was not awaited.
  pub stop-run-IsStopped :
      (os : List Operation) (n : ℕ)
      → let w = (stop env settings (run env settings os fresh)).1 in
        IsStopped w × (times_awaited n w ≡ once_below w.begun n)
  stop-run-IsStopped os n =
      let w = run env settings os fresh in
      let v = (stop env settings w).1 in
      let stopped = stop_lem w in
      let balanced : IsBalanced v =
        stop-Respects env settings StaysBalanced balanced_order (balanced_kept env settings) w
          (run-IsBalanced env settings os) in
      (
        stopped,
        omega (
          arith,
          balanced.awaited_or_pending n,
          balanced.begun_once n,
          ap (sum_map (same n)) stopped.nothing_pending,
        ),
      )
