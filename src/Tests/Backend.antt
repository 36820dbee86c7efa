-- ===== src/Tests/Backend.antt =====
-- Runs of the publishing thread.
use rabbitmq_pika_adapter.Prelude.{
  ℕ, ◌≡◌, refl, ◌++◌, true, false, none, some, [], ◌∷◌, length, arith, inr, ltb, if◌then◌else◌,
}
use rabbitmq_pika_adapter.Outcome.{external, Outcome, ok, raised}
use rabbitmq_pika_adapter.Value.{string}
use rabbitmq_pika_adapter.Retry.{delay_for_attempt}
use rabbitmq_pika_adapter.Backend.World.{
  Call, open_connection, basic_publish, Log, Env, Settings, absent,
}
use rabbitmq_pika_adapter.Backend.{
  is_full, request, publish, stop, start, next_channel, add_channel, head_phase, get_phase,
}
use rabbitmq_pika_adapter.Backend.Threads.{
  System, Step, Reach, here, next, publishes, starts, passes_head, gets_item, initial,
}
use rabbitmq_pika_adapter.Backend.Order.{attempts, requests, published_in_order}
use rabbitmq_pika_adapter.Backend.Fifo.Refinement.{Matches, Step-Matches}
use rabbitmq_pika_adapter.Backend.Pool.{size, pool_ready}
use rabbitmq_pika_adapter.Backend.Accounting.{IsBalanced, Reach-IsBalanced}
use rabbitmq_pika_adapter.Backend.Stopping.{
  restart_ends, rounds, IsFailing, thread_dies_on_overflow,
}
use rabbitmq_pika_adapter.Tests.Clock.{whole_seconds, lowest, policy}

abbrev settings : Settings whole_seconds
settings = record {
  exchange = string "orders";
  default_routing_key = string "new";
  channels = 2;
  confirm_delivery = true;
  queue_maxsize = 10;
  heartbeat_interval = 5;
  reconnect_retry_policy = policy none;
}

-- The broker answers every call but the publish of an empty body.
abbrev answers : Log → Call → Outcome (Unit {0})
answers log (basic_publish _ r) = if ltb 0 (length r.body) then ok tt else raised (external 1)
answers log _ = ok tt

abbrev pub working : Env whole_seconds
working = record {
  answer = answers;
  connection_open = λ log. true;
  channel_open = λ log c. true;
  now = λ log. length log;
  uniform = λ log. lowest;
}

abbrev refusing : Log → Call → Outcome (Unit {0})
refusing log open_connection = raised (external 2)
refusing log _ = ok tt

abbrev down : Env whole_seconds
down = record {
  answer = refusing;
  connection_open = λ log. false;
  channel_open = λ log c. false;
  now = λ log. length log;
  uniform = λ log. lowest;
}

-- Two requests are accepted, and the thread starts.
abbrev loaded : System
loaded = record {
  backend = start working settings (
      publish working settings [] (some "late")
        (publish working settings (1 ∷ []) none initial.backend));
  accepted =
      request working settings (1 ∷ []) none ∷ request working settings [] (some "late") ∷ [];
}

-- The thread has taken both; the second publish failed.
abbrev tried : System
tried = record {
  backend = get_phase working settings (
      head_phase working settings
        (get_phase working settings (head_phase working settings loaded.backend)));
  accepted = loaded.accepted;
}

loaded-Reach : Reach working settings initial loaded
unfolding initial publish request start is_full
loaded-Reach =
    next
      (next (next here (publishes (1 ∷ []) none refl refl)) (publishes [] (some "late") refl refl))
      (starts refl)

tried-Reach : Reach working settings initial tried
unfolding get_phase head_phase start publish initial add_channel delay_for_attempt
tried-Reach =
    next
      (next
        (next (next loaded-Reach (passes_head refl refl)) (gets_item refl (inr (omega arith)) refl))
        (passes_head refl refl))
      (gets_item refl (inr (omega arith)) refl)

attempts-tried :
    attempts tried.backend.log
    ≡ record { body = 1 ∷ []; exchange = string "orders"; routing_key = string "new" }
      ∷ record { body = []; exchange = string "orders"; routing_key = string "late" }
      ∷ []
unfolding get_phase head_phase start publish initial add_channel delay_for_attempt
attempts-tried = refl

published_in_order_example :
    attempts tried.backend.log ++ requests tried.backend.queue ≡ tried.accepted
published_in_order_example = published_in_order working settings (omega arith) tried-Reach

-- The thread is about to take the first request.
abbrev ready : System
ready = record loaded { backend = head_phase working settings loaded.backend }

ready-Reach : Reach working settings initial ready
unfolding start initial publish
ready-Reach = next loaded-Reach (passes_head refl refl)

-- The thread takes the request.
abbrev taking :
    Step working settings ready
      (record ready { backend = get_phase working settings ready.backend })
unfolding start initial publish head_phase add_channel delay_for_attempt
taking = gets_item refl (inr (omega arith)) refl

Step-Matches_example : Matches working settings taking
Step-Matches_example = Step-Matches working settings (omega arith) ready-Reach taking

pool_ready_example :
    (size working settings ready.backend ≡ 2)
    × ((c : ℕ) × (next_channel working settings ready.backend ≡ some c))
unfolding head_phase start publish initial add_channel
pool_ready_example = pool_ready working settings (omega arith) ready-Reach refl

Reach-IsBalanced_example : IsBalanced tried.backend
Reach-IsBalanced_example = Reach-IsBalanced working settings tried-Reach

restart_ends_example :
    let restarted = start working settings (stop working settings initial.backend) in
    let waiting = record restarted {
      queue = restarted.queue ++ some (request working settings (1 ∷ []) none) ∷ [];
    } in
    let ended = get_phase working settings (head_phase working settings waiting) in
    (ended.place ≡ absent) × (ended.queue ≡ some (request working settings (1 ∷ []) none) ∷ [])
unfolding initial is_full head_phase start stop add_channel
restart_ends_example =
    restart_ends working settings initial.backend
      (some (request working settings (1 ∷ []) none) ∷ []) refl refl refl refl

starting-IsFailing : IsFailing down settings 0 (start down settings initial.backend)
unfolding start initial
starting-IsFailing = ground arith

thread_dies_on_overflow_example :
    (rounds down settings 6 (start down settings initial.backend)).place ≡ absent
thread_dies_on_overflow_example =
    thread_dies_on_overflow down settings 5 (start down settings initial.backend) starting-IsFailing
      (λ log. (external 2, refl)) refl
