-- ===== src/Tests/AsyncSender.antt =====
-- Runs of the async sender.
use rabbitmq_pika_adapter.Prelude.{
  ◌<◌, ◌≡◌, refl, zero, true, false, none, some, List, [], ◌∷◌, length, arith,
}
use rabbitmq_pika_adapter.Outcome.{external, Outcome, ok, raised}
use rabbitmq_pika_adapter.Value.{string, null, get_or, truthy}
use rabbitmq_pika_adapter.Retry.{async_retry, delay_for_attempt, settle, gives_up}
use rabbitmq_pika_adapter.AsyncConnection.{injected}
use rabbitmq_pika_adapter.AsyncSender.World.{
  Call, connect, open_channel, declare_exchange, gather_all, did, failed, began, Log, Env, Settings,
  Sender, call,
}
use rabbitmq_pika_adapter.AsyncSender.{
  send, stop, do_publish, do_start, start, retried, publish_now, flush_confirms, gather,
}
use rabbitmq_pika_adapter.AsyncSender.Runs.{Operation, sends, fresh, run, perform}
use rabbitmq_pika_adapter.AsyncSender.Pending.{run-pending_lt}
use rabbitmq_pika_adapter.AsyncSender.Confirms.{times_awaited, once_below}
use rabbitmq_pika_adapter.AsyncSender.Stopping.{IsStopped, stop-run-IsStopped}
use rabbitmq_pika_adapter.Tests.Clock.{whole_seconds, lowest}
use rabbitmq_pika_adapter.Tests.DeadLettering.{destination}

abbrev pub settings : Settings whole_seconds
settings = record {
  source = injected;
  destination = destination;
  confirm_delivery = true;
  confirm_batch_size = 2;
  flushes_periodically = false;
  max_attempts = 2;
  base_delay = 1;
  max_delay = 30;
  multiplier = 2;
  jitter = 0;
}

-- The publish with number 0 fails.
abbrev answers : Log → Call → Outcome (Unit {0})
answers log (gather_all (zero ∷ ns)) = raised (external 5)
answers log _ = ok tt

abbrev pub env : Env whole_seconds
env = record {
  answer = answers;
  connection_closed = λ log. false;
  channel_closed = λ log. false;
  flusher_done = λ log. false;
  uniform = λ n. lowest;
}

abbrev two_sends : List Operation
two_sends = sends (ok (7 ∷ [])) none ∷ sends (ok (8 ∷ [])) (some "k") ∷ []

run-pending_lt_example : length (run env settings two_sends fresh).pending < 2
run-pending_lt_example = run-pending_lt env settings (omega arith) two_sends

stop-run-IsStopped_example :
    let w = (stop env settings (run env settings two_sends fresh)).1 in
    IsStopped env settings w × (times_awaited 1 w ≡ once_below w.begun 1)
stop-run-IsStopped_example = stop-run-IsStopped env settings two_sends 1

abbrev after_two : Sender
after_two = run env settings two_sends fresh

-- The publish of the first body fails. The second `send`, which awaits both, publishes its own body once
-- more and returns; the first body is lost.
published_again :
    (after_two.log
      ≡ began 2 (8 ∷ []) (string "k")
        ∷ failed (gather_all (0 ∷ 1 ∷ []))
        ∷ began 1 (8 ∷ []) (string "k")
        ∷ began 0 (7 ∷ []) (string "")
        ∷ did (declare_exchange (string "orders") null true false)
        ∷ did (open_channel true)
        ∷ did (connect none)
        ∷ [])
    × (after_two.pending ≡ 2 ∷ [])
unfolding run perform send retried async_retry do_publish start do_start publish_now flush_confirms
    gather call fresh get_or truthy delay_for_attempt settle gives_up
published_again = (refl, refl)
