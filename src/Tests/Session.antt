-- ===== src/Tests/Session.antt =====
-- Runs of the listener's session.
use rabbitmq_pika_adapter.Prelude.{
  Bool, ℕ, leb, length, arith, ◌≡◌, refl, true, false, Option, none, some, inr, [], sum_map,
}
use rabbitmq_pika_adapter.Outcome.{external, overflow_error, Outcome, ok, raised}
use rabbitmq_pika_adapter.Value.{Value, dict, string, field, end}
use rabbitmq_pika_adapter.Prelude.Int.{pos, negsuc}
use rabbitmq_pika_adapter.PublisherPool.{injected}
use rabbitmq_pika_adapter.Retry.{delay_for_attempt, sync_retry, settle, gives_up}
use rabbitmq_pika_adapter.Session.Construction.{Options, Made, prefetch}
use rabbitmq_pika_adapter.Session.Pairing.{Paired, Reach-Paired}
use rabbitmq_pika_adapter.Session.Loop.{
  connect_if_needed, create_connection, connect_once, new_thread, Reach, here, next, Thread, round,
  run, serve, set_up_if_needed, process, reconnect, back_off, close_counted, assert_connection,
}
use rabbitmq_pika_adapter.Session.Reconnecting.{Ending}
use rabbitmq_pika_adapter.Session.Running.{HasEnded, run_ends}
use rabbitmq_pika_adapter.Session.Rounds.{round-Ending}
use rabbitmq_pika_adapter.Tests.Clock.{power, whole_seconds, lowest, policy}
use rabbitmq_pika_adapter.Session.{
  call, Call, exchange_declare, Log, Env, Settings, Session, setup_channel_and_consumer,
  stop_listening,
}
use rabbitmq_pika_adapter.Session.Setup.{IsServing, Consumes, setup-Consumes}
use rabbitmq_pika_adapter.Session.Stopping.{unsafe, stop_listening_safe}

-- The exchange exists with another type.
abbrev answers : Log → Call → Outcome Value
answers log (exchange_declare _ _) = raised (external 3)
answers log _ = ok (string "amq.gen-1")

abbrev env : Env
env = record { answer = answers; connection_open = λ log. true; channel_open = λ log. true }

abbrev settings : Settings
settings = record {
  auto_ack = false;
  offload = true;
  predefined_queue = false;
  prefetch_settings = none;
  destination = field "exchange_name" (string "orders") end;
}

abbrev connected : Session
connected = record { stop_me = false; has_channel = true; has_connection = true; log = [] }

serving : IsServing env settings
serving = record {
  opens = λ log. (string "amq.gen-1", refl);
  names = λ log. (string "amq.gen-1", refl);
  consumes = λ log queue w flag. (string "amq.gen-1", refl);
}

setup-Consumes_example :
    let (r, s') = setup_channel_and_consumer env settings connected in
    (r ≡ ok tt) × Consumes env settings s'.log
setup-Consumes_example = setup-Consumes env settings connected serving refl

stop_listening_safe_example : sum_map unsafe (stop_listening env settings connected).1.log ≡ 0
stop_listening_safe_example =
    stop_listening_safe env settings connected refl (λ log. refl)
      (λ log. (string "amq.gen-1", refl))

abbrev lowest_drawn : ℕ → ℕ → ℕ → ℕ
lowest_drawn attempt = lowest

-- Nothing answers.
abbrev down : Env
down = record {
  answer = λ log c. raised (external 4);
  connection_open = λ log. false;
  channel_open = λ log. false;
}

abbrev thread : Thread
thread = record {
  session = record { stop_me = false; has_channel = false; has_connection = false; log = [] };
  failures = 0;
}

abbrev Ends : Env → Type 0
Ends e =
    (res : Outcome (Unit {0}) × Thread) × (round whole_seconds e settings (λ log. false)
        (policy none) (policy none) lowest_drawn 6 thread
      ≡ some res)
    × Ending whole_seconds e settings (λ log. false) (policy none) (policy none) lowest_drawn res

round-Ending_example : Ends down
round-Ending_example =
    round-Ending whole_seconds down settings (λ log. false) (policy none) (policy none) lowest_drawn
      5 thread (inr (refl, refl))

-- Nothing answers, the policies have no bound, and the thread is asked to stop after three calls.
abbrev asked_after_three : Log → Bool
asked_after_three log = leb 3 (length log)

run_ends_example :
    (res : Outcome (Unit {0}) × Thread) × (run whole_seconds down settings asked_after_three
        (policy none)
        (policy none)
        lowest_drawn
        4
        4
        thread
      ≡ some res)
    × HasEnded whole_seconds down settings asked_after_three
        (policy none)
        (policy none)
        lowest_drawn
        res
run_ends_example =
    run_ends whole_seconds down settings asked_after_three (policy none) (policy none) lowest_drawn
      3 (λ log late. ground arith) thread

-- A round that connects, sets up and processes events.
round-serves :
    let res =
      serve whole_seconds env settings
        (λ log. false)
        (policy none)
        (policy none)
        lowest_drawn
        (ok tt)
        (record { session = connected; failures = 3 }) in
    (res.0 ≡ ok tt) × (res.1.failures ≡ 0)
unfolding serve set_up_if_needed process reconnect assert_connection
round-serves = (refl, refl)

-- The connection is open, and every call on it fails.
abbrev noisy : Env
noisy = record down { connection_open = λ log. true; channel_open = λ log. true }

-- After five failures the delay overflows, in the inner handler and in the outer one.
lost_thread :
    let res =
      serve whole_seconds noisy settings
        (λ log. false)
        (policy none)
        (policy none)
        lowest_drawn
        (ok tt)
        (record { session = connected; failures = 5 }) in
    (res.0 ≡ raised overflow_error) × (res.1.failures ≡ 7)
unfolding serve set_up_if_needed process reconnect back_off delay_for_attempt close_counted
    assert_connection
lost_thread = (refl, refl)

abbrev pub options : Options
options = record {
  predefined_queue = false;
  auto_ack = false;
  offload = true;
  max_workers = none;
  max_in_flight = some (pos 0);
  prefetch_size = negsuc 0;
  prefetch_count = negsuc 0;
  all_channels = false;
}

abbrev pub made : Made
made = record {
  destination =
      dict (field "exchange_name" (string "x.orders") (field "routing_key" (string "new") end));
  factory = injected;
  predefined_queue = false;
  auto_ack = false;
  offloading = some (record { workers = 10; in_flight = 1 });
  prefetch_settings = some (prefetch (pos 0) (pos 1) false);
}

-- The thread after a first round in which nothing answers.
abbrev rested : Option (Outcome (Unit {0}) × Thread) → Thread
rested none = new_thread
rested (some (r, u)) = u

abbrev first_round : Option (Outcome (Unit {0}) × Thread)
first_round =
    round whole_seconds down settings (λ log. false) (policy (some 2)) (policy none) lowest_drawn 3
      new_thread

first_round-Reach :
    Reach whole_seconds down settings
      (λ log. false)
      (policy (some 2))
      (policy none)
      lowest_drawn
      new_thread
      (rested first_round)
unfolding new_thread round connect_if_needed create_connection connect_once serve assert_connection
    set_up_if_needed process reconnect back_off close_counted sync_retry settle gives_up
    delay_for_attempt power call
first_round-Reach = next 3 here refl refl

Reach-Paired_example :
    Paired whole_seconds down settings
      (λ log. false)
      (policy (some 2))
      (policy none)
      lowest_drawn
      (rested first_round)
Reach-Paired_example =
    Reach-Paired whole_seconds down settings (λ log. false) (policy (some 2)) (policy none)
      lowest_drawn first_round-Reach refl
