-- ===== src/Tests/Publishing.antt =====
-- A run of a client, its pools and a thread.
use rabbitmq_pika_adapter.Prelude.{refl, String, none, [], ◌∷◌, modify_at}
use rabbitmq_pika_adapter.Serializer.{bytes}
use rabbitmq_pika_adapter.Backend.{is_full}
use rabbitmq_pika_adapter.Backend.Threads.{initial}
use rabbitmq_pika_adapter.PublisherPool.{make_pool}
use rabbitmq_pika_adapter.Client.{lookup, pooled, publisher, new_client}
use rabbitmq_pika_adapter.Client.Publishing.{
  World, new_world, ask, used, has_room, Use, starts, sends, asks, uses, ClientReach, here, next,
}
use rabbitmq_pika_adapter.Client.Publishing.Delivery.{Delivers, handle-Delivers}
use rabbitmq_pika_adapter.Tests.Clock.{policy}
use rabbitmq_pika_adapter.Tests.Backend.{working}
use rabbitmq_pika_adapter.Tests.Client.{getenv, config, options}
use rabbitmq_pika_adapter.Tests.Pool.{serializer}

abbrev Reach : World → World → Type 0
Reach = ClientReach getenv config working 5 (policy none) serializer

abbrev ask_for : String → String → World → World
ask_for t backend w = (ask getenv config working 5 (policy none) serializer t backend options w).1

-- There is a pool for trades, and the client is asked for one for orders.
abbrev before : World
before = ask_for "trades" "lightweight_sender" new_world

abbrev asked : World
asked = ask_for "orders" "pool" before

abbrev use_1 : Use → World → World
use_1 what w = record w {
  entries =
      modify_at (used getenv config working 5 (policy none) serializer (pooled 1) what) 1 w.entries;
}

-- A message is sent and the pool is started.
abbrev sent : World
sent = use_1 starts (use_1 (sends (bytes (1 ∷ [])) none) asked)

asked-sent : Reach asked sent
unfolding ask used has_room make_pool new_world publisher lookup new_client initial is_full
asked-sent =
    next (next here (uses (pooled 1) (sends (bytes (1 ∷ [])) none) _ refl refl refl))
      (uses (pooled 1) starts _ refl refl refl)

handle-Delivers_example : Delivers getenv config working 5 (policy none) serializer "orders" sent 1
unfolding ask publisher lookup make_pool new_world new_client
handle-Delivers_example =
    handle-Delivers getenv config working 5 (policy none) serializer "orders" "pool" options
      (next here (asks "trades" "lightweight_sender" options refl)) refl asked-sent
