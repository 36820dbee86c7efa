-- ===== src/Client/Publishing/Delivery.antt =====
-- What is sent through the handles of a client.
use rabbitmq_pika_adapter.Prelude.{
  ℕ, ◌≡◌, sym, ap, ◌∙◌, String, Option, some, List, ◌++◌, get_elem?, All, All-at, get_elem?-map,
}
use rabbitmq_pika_adapter.Outcome.{Outcome, ok}
use rabbitmq_pika_adapter.Value.{Fields, dict}
use rabbitmq_pika_adapter.Retry.Floats.{Seconds}
use rabbitmq_pika_adapter.Retry.{RetryPolicy}
use rabbitmq_pika_adapter.Serializer.{Message}
use rabbitmq_pika_adapter.Backend.World.{Env}
use rabbitmq_pika_adapter.Backend.Order.{attempts, requests}
use rabbitmq_pika_adapter.PublisherPool.{Config, Options, resolve_destination}
use rabbitmq_pika_adapter.PublisherPool.Delivery.{IsAddressed, pool_delivers}
use rabbitmq_pika_adapter.Client.{Publisher}
use rabbitmq_pika_adapter.Client.Publishing.{Entry, World, new_world, pool_of, ask, ClientReach}
use rabbitmq_pika_adapter.Client.Publishing.Filed.{types, Reach-types}
use rabbitmq_pika_adapter.Client.Publishing.Sound.{
  IsGood, IsSound, asked-IsSound, Reach-IsSound, new_world-IsSound,
}

module _ (getenv : String → Option String) (config : Config) {s : Seconds} (env : Env s)
    (heartbeat_interval : ℕ) (policy : RetryPolicy s)
    (serializer : Message → Outcome (List ℕ)) where
  -- What was sent through a pool for the message type was published, or waits, in order, addressed to the message
  -- type's destination.
  pub record Delivers (t : String) (w : World) (n : ℕ) : Type 0 where
    pub entry : Entry
    pub numbered : get_elem? w.entries n ≡ some entry
    pub in_order :
        attempts entry.system.backend.log ++ requests entry.system.backend.queue
        ≡ entry.system.accepted
    pub destination : Fields
    pub found : resolve_destination config t ≡ ok (dict destination)
    pub addressed : All (IsAddressed destination) entry.system.accepted

  sound-Delivers :
      (t : String) (w : World) (n : ℕ)
      → IsSound getenv config env heartbeat_interval policy serializer w
      → get_elem? (types w) n ≡ some t
      → Delivers t w n
  sound-Delivers t w n h e =
      let (x, at, kind) = get_elem?-map (λ (e : Entry). e.message_type) w.entries n e in
      let g : IsGood getenv config env heartbeat_interval policy serializer x =
        All-at (IsGood getenv config env heartbeat_interval policy serializer) w.entries n h.good
          at in
      let (order, (d, found, addressed)) =
        pool_delivers getenv env heartbeat_interval policy serializer config x.message_type
          g.options g.made g.reached in
      record {
        entry = x;
        numbered = at;
        in_order = order;
        destination = d;
        found = ap (λ k. resolve_destination config k) (sym kind) ∙ found;
        addressed = addressed;
      }

  -- The handle that a client gives for a message type is for a pool of that type and stays so, whatever is done
  -- with the client, with this and other handles and by the threads of the pools, before and after: what was
  -- sent through the pool, by any handle, was handed to basic_publish, once, whether or not that call worked, or
  -- still waits, in the order in which it was sent, and all of it is addressed to the message type's destination.
  pub handle-Delivers :
      (t backend : String) (o : Options) {h : Publisher} {w v : World}
      → ClientReach getenv config env heartbeat_interval policy serializer new_world w
      → (ask getenv config env heartbeat_interval policy serializer t backend o w).0 ≡ ok h
      → ClientReach getenv config env heartbeat_interval policy serializer
          (ask getenv config env heartbeat_interval policy serializer t backend o w).1
          v
      → Delivers t v (pool_of h)
  handle-Delivers t backend o {h} {w} {v} before answer after =
      let (sound, filed) =
        asked-IsSound getenv config env heartbeat_interval policy serializer t backend o w (
          Reach-IsSound getenv config env heartbeat_interval policy serializer
            (new_world-IsSound getenv config env heartbeat_interval policy serializer) before) in
      sound-Delivers t v (pool_of h)
        (Reach-IsSound getenv config env heartbeat_interval policy serializer sound after)
        (Reach-types getenv config env heartbeat_interval policy serializer (pool_of h) after
          (filed h answer))
