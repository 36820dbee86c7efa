-- ===== src/Backend/Pool.antt =====
-- The channel pool: never more channels than configured, and all of them when a request is taken.
use native.Mathlib.Nat.{mod-lt}
use rabbitmq_pika_adapter.Prelude.{
  ℕ, zero, suc, ◌+◌, ◌%◌, ◌≤◌, ◌<◌, ◌≡◌, refl, ◌∙◌, Option, none, some, List, [], ◌∷◌, arith,
  length, length-append, get_elem?-lt,
}
use rabbitmq_pika_adapter.Outcome.{Outcome, ok}
use rabbitmq_pika_adapter.Retry.Floats.{Seconds}
use rabbitmq_pika_adapter.Backend.World.{PublishRequest, Env, Settings, Backend, at_get}
use rabbitmq_pika_adapter.Backend.{
  publish, push_sentinel, stop, start, add_channel, add_channels, open_new,
  ensure_connection_and_channels, pump_io_if_due, next_channel, publish_request, recover,
  close_if_open, close_channels, clean_up, head_phase, after_get, get_from, get_phase,
}
use rabbitmq_pika_adapter.Backend.Threads.{
  System, Step, publishes, stops, late_sentinel, starts, passes_head, gets_item, Reach, here, next,
  initial,
}

module _ {s : Seconds} (env : Env s) (settings : Settings s) where
  abbrev pub size : Backend → ℕ
  size b = length b.channels

  abbrev Returned : Outcome (Unit {0}) → Type 0
  Returned r = r ≡ ok tt

  add_channel-size :
      (b : Backend)
      → let (r, c) = add_channel env settings b in
        ((r ≡ ok tt → size c ≡ size b + 1) × (size c ≤ size b + 1))
  unfolding add_channel
  add_channel-size b = ground (arith, length-append b.channels (b.channels_created ∷ []))

  add_channels-size :
      (k : ℕ) (b : Backend)
      → let (r, c) = add_channels env settings k b in
        ((r ≡ ok tt → size c ≡ size b + k) × (size c ≤ size b + k))
  unfolding add_channels
  add_channels-size zero b = omega arith
  add_channels-size (suc k) b =
      ground (arith, add_channel-size b, add_channels-size k (add_channel env settings b).1)

  ensure-size :
      (b : Backend)
      → size b ≤ settings.channels
      → let (r, c) = ensure_connection_and_channels env settings b in
        ((r ≡ ok tt → size c ≡ settings.channels) × (size c ≤ settings.channels))
  unfolding ensure_connection_and_channels open_new
  ensure-size b h = grind (arith, add_channels-size)

  -- Where the thread is about to take a request, the pool is full.
  pub record IsPooled (b : Backend) : Type 0 where
    pub bounded : size b ≤ settings.channels
    pub full : b.place ≡ at_get → size b ≡ settings.channels

  recover-IsPooled : (b : Backend) → size b ≤ settings.channels → IsPooled (recover env settings b)
  unfolding recover
  recover-IsPooled b h = ground arith

  close_if_open-size : (c : ℕ) (b : Backend) → size (close_if_open env settings c b) ≡ size b
  unfolding close_if_open
  close_if_open-size c b = ground arith

  close_channels-size :
      (cs : List ℕ) (b : Backend) → size (close_channels env settings cs b) ≡ size b
  unfolding close_channels
  close_channels-size [] b = refl
  close_channels-size (c ∷ cs) b =
      close_channels-size cs (close_if_open env settings c b) ∙ close_if_open-size c b

  clean_up-IsPooled :
      (b : Backend) → size b ≤ settings.channels → IsPooled (clean_up env settings b)
  unfolding clean_up
  clean_up-IsPooled b h = ground (arith, close_channels-size b.channels b)

  head_phase-IsPooled : (b : Backend) → IsPooled b → IsPooled (head_phase env settings b)
  unfolding head_phase
  head_phase-IsPooled b h = grind (arith, ensure-size b, recover-IsPooled, clean_up-IsPooled)

  pump-size : (b : Backend) → size (pump_io_if_due env settings b).1 ≡ size b
  unfolding pump_io_if_due
  pump-size b = ground arith

  publish_request-size :
      (r : PublishRequest) (b : Backend) → size (publish_request env settings r b).1 ≡ size b
  unfolding publish_request
  publish_request-size r b = ground arith

  after_get-IsPooled :
      (item : Option (Option PublishRequest)) (b : Backend)
      → size b ≤ settings.channels
      → IsPooled (after_get env settings item b)
  unfolding after_get
  after_get-IsPooled none b h = ground (arith, pump-size b)
  after_get-IsPooled (some none) b h =
      clean_up-IsPooled (pump_io_if_due env settings b).1 (omega (arith, pump-size b))
  after_get-IsPooled (some (some r)) b h =
      grind (arith, pump-size b, publish_request-size, recover-IsPooled)

  get_from-IsPooled :
      (q : List (Option PublishRequest)) (b : Backend)
      → size b ≤ settings.channels
      → IsPooled (get_from env settings q b)
  unfolding get_from
  get_from-IsPooled [] b h = after_get-IsPooled none b h
  get_from-IsPooled (item ∷ rest) b h = after_get-IsPooled (some item) (record b { queue = rest }) h

  Step-IsPooled : {u v : System} → Step env settings u v → IsPooled u.backend → IsPooled v.backend
  unfolding publish push_sentinel stop start get_phase
  Step-IsPooled {u} (publishes body key room e) h = rw e (ground arith)
  Step-IsPooled {u} (stops e) h = rw e (ground arith)
  Step-IsPooled {u} (late_sentinel e) h = rw e (ground arith)
  Step-IsPooled {u} (starts e) h = rw e (ground arith)
  Step-IsPooled {u} (passes_head at_start e) h = rw e (head_phase-IsPooled u.backend h)
  Step-IsPooled {u} (gets_item waits some_item e) h =
      rw e (get_from-IsPooled u.backend.queue u.backend h.bounded)

  pub Reach-IsPooled : {u : System} → Reach env settings initial u → IsPooled u.backend
  unfolding initial
  Reach-IsPooled here = ground arith
  Reach-IsPooled (next r step) = Step-IsPooled step (Reach-IsPooled r)

  pub next_channel-some :
      (b : Backend) → 0 < size b → (c : ℕ) × (next_channel env settings b ≡ some c)
  unfolding next_channel
  next_channel-some b h =
      let (c, found) = get_elem?-lt b.channels (b.ch_index % size b) (mod-lt b.ch_index h) in
      (c, ground arith)

  -- Whatever the threads do, the pool never holds more channels than configured.
  pub pool_bounded :
      {u : System} → Reach env settings initial u → size u.backend ≤ settings.channels
  pool_bounded r = (Reach-IsPooled r).bounded

  -- Whatever the threads do, when the thread is about to take a request the pool is full, and there is a
  -- channel to publish on.
  pub pool_ready :
      {u : System}
      → 0 < settings.channels
      → Reach env settings initial u
      → u.backend.place ≡ at_get
      → (size u.backend ≡ settings.channels)
        × ((c : ℕ) × (next_channel env settings u.backend ≡ some c))
  pool_ready {u} some_channels r waits =
      let full = (Reach-IsPooled r).full waits in (full, next_channel-some u.backend (omega arith))
