-- ===== src/Backend/Fifo/Refinement.antt =====
-- Each step of the backend's threads is a step of the queue that it promises.
use native.Mathlib.Decide.{dec_lt}
use mathlib.Core.List.{append-nil}
use rabbitmq_pika_adapter.Prelude.{
  ℕ, ◌≤◌, ◌<◌, ◌≡◌, refl, sym, ap, ◌∙◌, ◌⊎◌, inl, inr, true, false, Option, none, some, List, [],
  ◌∷◌, ◌++◌, arith, length, if_ind,
}
use rabbitmq_pika_adapter.Retry.Floats.{Seconds}
use rabbitmq_pika_adapter.Backend.World.{PublishRequest, Env, Settings, Backend}
use rabbitmq_pika_adapter.Backend.{
  is_full, request, publish, push_sentinel, stop, start, get_phase, get_from, next_channel,
}
use rabbitmq_pika_adapter.Backend.Threads.{
  System, Step, publishes, stops, late_sentinel, starts, passes_head, gets_item, Reach, initial,
}
use rabbitmq_pika_adapter.Backend.Pool.{Reach-IsPooled, next_channel-some}
use rabbitmq_pika_adapter.Backend.Order.{
  attempts, requests, requests-append, Quiet, head_phase-Quiet, get_other-Quiet,
  get_request-attempts, next_channel-queue,
}
use rabbitmq_pika_adapter.Backend.Fifo.{Fifo, Accepts, Sends}

-- What is seen of a backend.
abbrev pub view : Backend → Fifo
view b = record { waiting = requests b.queue; sent = attempts b.log }

view-queue :
    (b : Backend) (q : List (Option PublishRequest))
    → requests q ≡ requests b.queue
    → view (record b { queue = q }) ≡ view b
view-queue b q e = ap (λ (l : List PublishRequest). record { waiting = l; sent = attempts b.log }) e

Quiet-view : {b c : Backend} → Quiet b c → view c ≡ view b
Quiet-view q = let e = q.queue in let f = q.attempts in ground arith

length-requests : (q : List (Option PublishRequest)) → length (requests q) ≤ length q
length-requests [] = omega arith
length-requests (none ∷ q) = omega (arith, length-requests q)
length-requests (some r ∷ q) = omega (arith, length-requests q)

module _ {s : Seconds} (env : Env s) (settings : Settings s) where
  -- `Queue.full()` counts the sentinels too.
  room :
      (b : Backend)
      → is_full env settings b ≡ false
      → (settings.queue_maxsize ≡ 0) ⊎ (length (requests b.queue) < settings.queue_maxsize)
  unfolding is_full
  room b h = elim (dec_lt 0 settings.queue_maxsize) [
    | yes bounded ↦ inr (ground (arith, length-requests b.queue))
    | no unbounded ↦ inl (omega arith)
  ]

  push_sentinel-view : (b : Backend) → view (push_sentinel env settings b) ≡ view b
  unfolding push_sentinel
  push_sentinel-view b =
      if_ind (λ c. view c ≡ view b) (is_full env settings b) (λ full. refl)
        (λ free.
          view-queue b (b.queue ++ none ∷ [])
            (requests-append b.queue (none ∷ []) ∙ append-nil (requests b.queue)))

  stop-view : (b : Backend) → view (stop env settings b) ≡ view b
  unfolding stop
  stop-view b =
      if_ind (λ c. view c ≡ view b) b.stop_event (λ set. refl)
        (λ clear. push_sentinel-view (record b { stop_event = true }))

  start-view : (b : Backend) → view (start env settings b) ≡ view b
  unfolding start
  start-view b = ground arith

  -- What taking the first item has to do with the queue: a request is handed over, a sentinel or a timeout is
  -- nothing to it.
  abbrev pub Takes : List (Option PublishRequest) → Fifo → Fifo → Type 0
  Takes (some r ∷ rest) q q' = Sends r q q'
  Takes (none ∷ rest) q q' = q' ≡ q
  Takes [] q q' = q' ≡ q

  -- What each step of the backend has to do with the queue that it promises.
  abbrev pub Matches : {u v : System} → Step env settings u v → Type 0
  Matches {u} {v} (publishes body key free e) =
      Accepts settings.queue_maxsize (request env settings body key) (view u.backend)
        (view v.backend)
  Matches {u} {v} (gets_item at_queue some_item e) =
      Takes u.backend.queue (view u.backend) (view v.backend)
  Matches {u} {v} (stops e) = view v.backend ≡ view u.backend
  Matches {u} {v} (late_sentinel e) = view v.backend ≡ view u.backend
  Matches {u} {v} (starts e) = view v.backend ≡ view u.backend
  Matches {u} {v} (passes_head at_start e) = view v.backend ≡ view u.backend

  get_from-Takes :
      (q : List (Option PublishRequest)) (b : Backend) {c : ℕ}
      → b.queue ≡ q
      → next_channel env settings b ≡ some c
      → Takes q (view b) (view (get_from env settings q b))
  unfolding get_from
  get_from-Takes [] b e h = Quiet-view (get_other-Quiet env settings b).0
  get_from-Takes (none ∷ rest) b e h =
      Quiet-view (get_other-Quiet env settings (record b { queue = rest })).1
      ∙ view-queue b rest (sym (ap requests e))
  get_from-Takes (some r ∷ rest) b e h =
      let (tried, kept) =
        get_request-attempts env settings r (record b { queue = rest })
          (next_channel-queue env settings b rest ∙ h) in
      record {
        from_the_front =
            ap requests e ∙ ap (λ (l : List PublishRequest). r ∷ l) (sym (ap requests kept));
        one_sent = tried;
      }

  -- In every run with at least one channel, whatever the threads do and however the calls end, each step of the
  -- backend does to the queue that it promises what that step is for: a publish adds its request at the end,
  -- where there is room; a get takes the request at the front and hands it over, tried once, or takes a sentinel
  -- or nothing, and then the queue stays as it is; every other step leaves it alone.
  pub Step-Matches :
      {u v : System}
      → 0 < settings.channels
      → Reach env settings initial u
      → (step : Step env settings u v) → Matches step
  unfolding get_phase publish
  Step-Matches {u} some_channels r (publishes body key free e) =
      let x = request env settings body key in
      rw e (record {
        some_room = room u.backend free;
        at_the_end = requests-append u.backend.queue (some x ∷ []);
        none_sent = refl;
      })
  Step-Matches {u} some_channels r (stops e) = rw e (stop-view u.backend)
  Step-Matches {u} some_channels r (late_sentinel e) = rw e (push_sentinel-view u.backend)
  Step-Matches {u} some_channels r (starts e) = rw e (start-view u.backend)
  Step-Matches {u} some_channels r (passes_head at_start e) =
      rw e (Quiet-view (head_phase-Quiet env settings u.backend))
  Step-Matches {u} some_channels r (gets_item at_queue some_item e) =
      let pooled = Reach-IsPooled env settings r in
      let (c, ready) =
        next_channel-some env settings u.backend (omega (arith, pooled.full at_queue)) in
      rw e (get_from-Takes u.backend.queue u.backend refl ready)
