-- ===== src/Tests/AsyncListener.antt =====
-- Runs of the async listener.
use rabbitmq_pika_adapter.Prelude.{
  ℕ, ◌+◌, ◌≤◌, ◌≡◌, refl, ◌⊎◌, true, false, none, some, [], ◌∷◌, sum_map, length, ◌==◌,
  if◌then◌else◌, if_ind,
}
use rabbitmq_pika_adapter.Prelude.Int.{pos, ◌+ℤ◌}
use rabbitmq_pika_adapter.Value.{string}
use rabbitmq_pika_adapter.Outcome.{external, is_cancelled, Outcome, ok, raised, Survives}
use rabbitmq_pika_adapter.AsyncConnection.{Arguments, connect_arguments, injected}
use rabbitmq_pika_adapter.AsyncConnection.Agreement.{Agree, connect_arguments-Agree}
use rabbitmq_pika_adapter.Connection.{RabbitConnectionFactory, make_connection_factory_from_params}
use rabbitmq_pika_adapter.AsyncListener.World.{
  Message, Call, ack, publish, nack, user_callback, out_message, did, failed, Log, Env, Settings,
  Listener, call,
}
use rabbitmq_pika_adapter.AsyncListener.{
  run_handler, after_callback, on_failure, publish_and_ack, config,
}
use rabbitmq_pika_adapter.AsyncListener.Once.{settles, IsServing, run_handler-settles}
use rabbitmq_pika_adapter.AsyncListener.Lifecycle.{start, stop, connected}
use rabbitmq_pika_adapter.AsyncListener.SetUp.{IsConsuming, start-IsConsuming}
use rabbitmq_pika_adapter.AsyncListener.Stopping.{IsReleased, Closed, stop-IsReleased}
use rabbitmq_pika_adapter.AsyncListener.Tasks.{
  System, Reach, here, next, arrives, begins, ends, started,
}
use rabbitmq_pika_adapter.AsyncListener.Tasks.Permits.{callbacks_bounded}
use rabbitmq_pika_adapter.AsyncListener.Tasks.Settlement.{has_tag, async_settled_at_most_once}
use rabbitmq_pika_adapter.AsyncListener.Tasks.Settlement as Tasks
use rabbitmq_pika_adapter.DeadLettering.{resolve_dead_lettering_config, retry_attempt_from_headers}
use rabbitmq_pika_adapter.Listener.{poison_queue}
use rabbitmq_pika_adapter.Tests.DeadLettering.{render, destination, headers}
use rabbitmq_pika_adapter.Tests.Client.{params}

-- The callback fails for the message with tag 2.
abbrev pub answers : Log → Call → Outcome (Unit {0})
answers log (user_callback m) = if m.tag == 2 then raised (external 7) else ok tt
answers log _ = ok tt

abbrev pub working : Env
working = record {
  answer = answers;
  connection_closed = λ log. false;
  channel_closed = λ log. false;
}

abbrev pub settings : Settings
settings = record {
  source = injected;
  predefined_queue = false;
  prefetch_count = pos 10;
  max_concurrency = 2;
  auto_ack = false;
  destination = destination;
  render = render;
}

abbrev pub message : ℕ → Message
message tag = record { tag = tag; headers = none; properties = none; body = tag ∷ [] }

abbrev first : System
first = record {
  listener = record (started settings).listener { waiting = message 2 ∷ [] };
  delivered = message 2 ∷ [];
}

abbrev second : System
second = record first {
  listener = record first.listener { waiting = []; semaphore = some 1; running = message 2 ∷ [] };
}

abbrev third : System
third = record second {
  listener = run_handler working settings (message 2) (record second.listener { running = [] });
}

third-Reach : Reach working settings (started settings) third
unfolding started
third-Reach =
    next (next (next here (arrives (message 2) refl)) (begins (message 2) [] [] 1 refl refl refl))
      (ends (message 2) [] [] refl refl)

second-Reach : Reach working settings (started settings) second
unfolding started
second-Reach =
    next (next here (arrives (message 2) refl)) (begins (message 2) [] [] 1 refl refl refl)

third-log : third.listener.log ≡ did (nack 2 false) ∷ failed (user_callback (message 2)) ∷ []
unfolding started run_handler after_callback on_failure call config resolve_dead_lettering_config
    poison_queue retry_attempt_from_headers is_cancelled
third-log = refl

async_settled_at_most_once_example :
    sum_map (Tasks.settles 2) third.listener.log ≤ sum_map (has_tag 2) (message 2 ∷ [])
async_settled_at_most_once_example = async_settled_at_most_once working settings 2 third-Reach

callbacks_bounded_example : length (message 2 ∷ []) ≤ 2
callbacks_bounded_example = callbacks_bounded working settings second-Reach

callbacks-Survives : (log : Log) (m : Message) → Survives (answers log (user_callback m))
unfolding is_cancelled
callbacks-Survives log m =
    if_ind (λ (r : Outcome (Unit {0})). Survives r) (m.tag == 2) (λ h. refl) (λ h. tt)

serving : IsServing working
serving = record {
  acks = λ log tag. refl;
  nacks = λ log tag requeue. refl;
  callbacks = callbacks-Survives;
  publishes = λ log m key. tt;
}

run_handler-settles_example :
    sum_map settles (run_handler working settings (message 2) second.listener).log
    ≡ sum_map settles second.listener.log + 1
run_handler-settles_example =
    run_handler-settles working settings (message 2) second.listener refl serving

-- An ack that fails after the publish to the dead-letter queue: the message is rejected as well.
abbrev unacked : Log → Call → Outcome (Unit {0})
unacked log (user_callback m) = raised (external 7)
unacked log (ack _) = raised (external 8)
unacked log _ = ok tt

abbrev deaf : Env
deaf = record { answer = unacked; connection_closed = λ log. false; channel_closed = λ log. false }

abbrev poison : Message
poison = record { tag = 4; headers = some headers; properties = none; body = [] }

dead_lettered_and_rejected :
    (run_handler deaf settings poison second.listener).log
    ≡ did (nack 4 false)
      ∷ failed (ack 4)
      ∷ did (publish (out_message poison) "orders.dlq")
      ∷ failed (user_callback poison)
      ∷ []
unfolding started run_handler after_callback on_failure call config resolve_dead_lettering_config
    poison_queue retry_attempt_from_headers publish_and_ack is_cancelled ◌+ℤ◌
dead_lettered_and_rejected = refl

abbrev off : Listener
off = record {
  has_connection = false;
  has_channel = false;
  has_queue = false;
  has_consumer = false;
  semaphore = none;
  waiting = [];
  running = [];
  log = [];
}

start-IsConsuming_example :
    let t = (start working settings off).1 in
    ((connected working settings off ≡ true) × (t ≡ off))
    ⊎ ((connected working settings off ≡ false) × IsConsuming working settings t)
unfolding start
start-IsConsuming_example = start-IsConsuming working settings off refl

-- Every call fails.
abbrev refusing : Env
refusing = record {
  answer = λ log c. raised (external 8);
  connection_closed = λ log. false;
  channel_closed = λ log. false;
}

stop-IsReleased_example :
    let (r, t) = stop refusing settings (started settings).listener in
    (r ≡ ok tt) × (IsReleased refusing settings t × Closed refusing settings t.log)
unfolding started is_cancelled
stop-IsReleased_example =
    stop-IsReleased refusing settings (λ log c. refl) (started settings).listener refl

abbrev arguments : Arguments
arguments = record {
  host = string "mq.local";
  port = pos 5672;
  login = string "guest";
  password = string "secret";
  virtualhost = string "/";
  heartbeat = some (pos 30);
  timeout = none;
}

connect_arguments-Agree_example :
    (f : RabbitConnectionFactory) × (make_connection_factory_from_params params ≡ ok f)
    × Agree f arguments
unfolding connect_arguments
connect_arguments-Agree_example = connect_arguments-Agree params refl
