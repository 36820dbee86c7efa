-- ===== src/Backend/Fifo.antt =====
-- What the publishing backend promises: a first-in first-out queue of requests, of bounded size. The
-- thread, the connection, the channels and the sentinels are forgotten.
pub mod Refinement
use rabbitmq_pika_adapter.Prelude.{
  ℕ, ◌<◌, ◌≡◌, ◌⊎◌, Option, none, some, List, [], ◌∷◌, ◌++◌, length,
}
use rabbitmq_pika_adapter.Backend.World.{PublishRequest}

-- `sent` are the requests that were handed to the broker's client, the first one first.
pub record Fifo : Type 0 where
  pub waiting : List PublishRequest
  pub sent : List PublishRequest

-- The request is accepted at the end, where there is room. With capacity 0 there is no bound.
pub record Accepts (capacity : ℕ) (x : PublishRequest) (q r : Fifo) : Type 0 where
  pub some_room : (capacity ≡ 0) ⊎ (length q.waiting < capacity)
  pub at_the_end : r.waiting ≡ q.waiting ++ x ∷ []
  pub none_sent : r.sent ≡ q.sent

-- The request that waits longest is handed over.
pub record Sends (x : PublishRequest) (q r : Fifo) : Type 0 where
  pub from_the_front : q.waiting ≡ x ∷ r.waiting
  pub one_sent : r.sent ≡ q.sent ++ x ∷ []
