-- ===== src/Tests/Listener.antt =====
-- Runs of the listener's handlers and of its threads.
use rabbitmq_pika_adapter.Prelude.{
  ℕ, ◌+◌, ◌≤◌, ◌≡◌, refl, ◌++◌, true, false, Option, none, some, [], ◌∷◌, sum_map, ◌==◌,
  if◌then◌else◌,
}
use rabbitmq_pika_adapter.Prelude.Int.{pos}
use rabbitmq_pika_adapter.Outcome.{external, Outcome, ok, raised}
use rabbitmq_pika_adapter.DeadLettering.{DeadLetteringConfig, resolve_dead_lettering_config}
use rabbitmq_pika_adapter.Listener.Message.{Delivery, fail_job}
use rabbitmq_pika_adapter.Listener.World.{
  Call, user_callback, basic_publish, submit_task, Log, Env, Settings, Listener, call,
}
use rabbitmq_pika_adapter.Listener.{run_job, schedule, offload_wrapper, on_done}
use rabbitmq_pika_adapter.Listener.Accounting.{IsBalanced}
use rabbitmq_pika_adapter.Listener.System.{
  System, may_proceed, run_callback, Reach, here, next, deliver, callback_ends, task_done,
  run_scheduled, start,
}
use rabbitmq_pika_adapter.Listener.System.Permits.{in_flight, permits_conserved}
use rabbitmq_pika_adapter.Listener.System.Counters.{counters_agree}
use rabbitmq_pika_adapter.Listener.System.Settlement.{settles, has_tag, settled_at_most_once}
use rabbitmq_pika_adapter.Tests.DeadLettering.{render, destination}

abbrev pub manual : Settings
manual = record { auto_ack = false; offload = true; destination = destination; render = render }

abbrev direct : Settings
direct = record { auto_ack = false; offload = false; destination = destination; render = render }

-- The callback fails for the message with tag 2.
abbrev pub callback : Option ℕ → Outcome (Unit {0})
callback none = ok tt
callback (some tag) = if tag == 2 then raised (external 7) else ok tt

abbrev pub answers : Log → Call → Outcome (Unit {0})
answers log (user_callback d) = callback d.delivery_tag
answers log _ = ok tt

abbrev pub working : Env
working = record { answer = answers; connection_open = λ log. true }

-- Neither `submit` nor a publish succeeds.
abbrev refusals : Log → Call → Outcome (Unit {0})
refusals log (submit_task _) = raised (external 8)
refusals log (basic_publish _ _ _ _) = raised (external 9)
refusals log _ = ok tt

abbrev refusing : Env
refusing = record { answer = refusals; connection_open = λ log. true }

abbrev pub message : ℕ → Delivery
message tag = record { delivery_tag = some tag; properties = none; body = tag ∷ [] }

abbrev pub fresh : Listener
fresh = record {
  stop_me = false;
  permits = 2;
  running = [];
  finished = [];
  scheduled = [];
  log = [];
}

-- Two messages in the executor, then the second one's callback fails and its job runs.
abbrev both : System
both = record {
  listener =
      (offload_wrapper working manual (message 2)
        (offload_wrapper working manual (message 1) (start 2).listener).1).1;
  delivered = message 2 ∷ message 1 ∷ [];
}

abbrev ended : System
ended = record both {
  listener =
      run_callback working manual (message 2)
        (record both.listener { running = [] ++ message 1 ∷ [] });
}

abbrev handed : System
handed = record both {
  listener =
      (on_done working manual (message 2) (raised (external 7))
        (record ended.listener { finished = [] ++ [] })).1;
}

ended-Reach : Reach working manual (start 2) ended
unfolding start offload_wrapper run_callback may_proceed
ended-Reach =
    next (next (next here (deliver (message 1) refl refl)) (deliver (message 2) refl refl))
      (callback_ends (message 2) [] (message 1 ∷ []) refl refl)

handed-Reach : Reach working manual (start 2) handed
unfolding start offload_wrapper run_callback may_proceed call
handed-Reach = next ended-Reach (task_done (message 2) (raised (external 7)) [] [] refl refl)

abbrev config : DeadLetteringConfig
config = resolve_dead_lettering_config render destination

-- The job on the connection's thread rejects the message.
abbrev settled_second : System
settled_second = record both {
  listener =
      (run_job working manual
        (fail_job 2 (message 2) (resolve_dead_lettering_config render destination) (pos 1))
        (record handed.listener { scheduled = [] })).1;
}

settled_second-Reach : Reach working manual (start 2) settled_second
unfolding start offload_wrapper run_callback may_proceed call on_done schedule
settled_second-Reach = next handed-Reach (run_scheduled _ [] refl refl)

settles-settled_second : sum_map (settles 2) settled_second.listener.log ≡ 1
unfolding start offload_wrapper run_callback call on_done schedule run_job
settles-settled_second = refl

settled_at_most_once_example :
    sum_map (settles 2) settled_second.listener.log
    ≤ sum_map (has_tag 2) (message 2 ∷ message 1 ∷ [])
settled_at_most_once_example = settled_at_most_once working manual 2 2 settled_second-Reach

permits_conserved_example :
    (settled_second.listener.permits + in_flight settled_second.listener ≡ 2)
    × (in_flight settled_second.listener ≤ 2)
permits_conserved_example = permits_conserved working manual 2 settled_second-Reach

counters_agree_example : IsBalanced settled_second.listener.log
counters_agree_example = counters_agree working manual 2 settled_second-Reach
