-- ===== src/Backend/Order.antt =====
-- Requests are published in the order in which they were accepted, each at most once.
use rabbitmq_pika_adapter.Prelude.{
  ℕ, zero, suc, ◌<◌, ◌≡◌, refl, sym, if_ind, ap, ◌∙◌, String, true, Option, none, some, List, [],
  ◌∷◌, ◌++◌, arith,
}
use mathlib.Core.Path.{ap₂}
use rabbitmq_pika_adapter.Backend.Pool.{IsPooled, Reach-IsPooled, next_channel-some}
use mathlib.Core.List.{append_assoc, append-nil}
use rabbitmq_pika_adapter.Retry.Floats.{Seconds}
use rabbitmq_pika_adapter.Backend.World.{
  PublishRequest, basic_publish, did, failed, Log, Env, Settings, Backend,
}
use rabbitmq_pika_adapter.Backend.{
  is_full, request, publish, push_sentinel, stop, start, add_channel, add_channels, open_new,
  ensure_connection_and_channels, pump_io_if_due, next_channel, publish_request, recover,
  close_if_open, close_channels, clean_up, head_phase, after_get, get_from, get_phase,
}
use rabbitmq_pika_adapter.Backend.Threads.{
  System, Step, publishes, stops, late_sentinel, starts, passes_head, gets_item, Reach, here, next,
  initial,
}

-- The requests for which `basic_publish` has been called, in order.
abbrev pub attempts : Log → List PublishRequest
attempts [] = []
attempts (did (basic_publish _ r) ∷ log) = attempts log ++ r ∷ []
attempts (failed (basic_publish _ r) ∷ log) = attempts log ++ r ∷ []
attempts (_ ∷ log) = attempts log

-- The requests in the queue; sentinels are no requests.
abbrev pub requests : List (Option PublishRequest) → List PublishRequest
requests [] = []
requests (none ∷ q) = requests q
requests (some r ∷ q) = r ∷ requests q

-- What an operation that publishes nothing leaves alone.
pub record Quiet (b c : Backend) : Type 0 where
  pub queue : c.queue ≡ b.queue
  pub attempts : attempts c.log ≡ attempts b.log

-- What has been tried and what is still queued, in order.
abbrev pub history : Backend → List PublishRequest
history b = attempts b.log ++ requests b.queue

pub requests-append :
    (q q' : List (Option PublishRequest)) → requests (q ++ q') ≡ requests q ++ requests q'
requests-append [] q' = refl
requests-append (none ∷ q) q' = requests-append q q'
requests-append (some r ∷ q) q' = ap (λ rs. r ∷ rs) (requests-append q q')

Quiet-trans : {a b c : Backend} → Quiet a b → Quiet b c → Quiet a c
Quiet-trans p q = ground arith

module _ {s : Seconds} (env : Env s) (settings : Settings s) where
  add_channel-Quiet : (b : Backend) → Quiet b (add_channel env settings b).1
  unfolding add_channel
  add_channel-Quiet b = ground arith

  add_channels-Quiet : (k : ℕ) (b : Backend) → Quiet b (add_channels env settings k b).1
  unfolding add_channels
  add_channels-Quiet zero b = ground arith
  add_channels-Quiet (suc k) b =
      ground (arith, add_channel-Quiet b, add_channels-Quiet k (add_channel env settings b).1)

  ensure-Quiet : (b : Backend) → Quiet b (ensure_connection_and_channels env settings b).1
  unfolding ensure_connection_and_channels open_new
  ensure-Quiet b = grind (arith, add_channels-Quiet)

  pump-Quiet : (b : Backend) → Quiet b (pump_io_if_due env settings b).1
  unfolding pump_io_if_due
  pump-Quiet b = ground arith

  recover-Quiet : (b : Backend) → Quiet b (recover env settings b)
  unfolding recover
  recover-Quiet b = ground arith

  close_if_open-Quiet : (c : ℕ) (b : Backend) → Quiet b (close_if_open env settings c b)
  unfolding close_if_open
  close_if_open-Quiet c b = ground arith

  close_channels-Quiet : (cs : List ℕ) (b : Backend) → Quiet b (close_channels env settings cs b)
  unfolding close_channels
  close_channels-Quiet [] b = ground arith
  close_channels-Quiet (c ∷ cs) b =
      Quiet-trans (close_if_open-Quiet c b)
        (close_channels-Quiet cs (close_if_open env settings c b))

  clean_up-Quiet : (b : Backend) → Quiet b (clean_up env settings b)
  unfolding clean_up
  clean_up-Quiet b = ground (arith, close_channels-Quiet b.channels b)

  pub head_phase-Quiet : (b : Backend) → Quiet b (head_phase env settings b)
  unfolding head_phase
  head_phase-Quiet b = grind (arith, ensure-Quiet b, recover-Quiet, clean_up-Quiet)

  -- With a channel at hand a request is tried exactly once.
  publish_request-attempts :
      (r : PublishRequest) (b : Backend) {c : ℕ}
      → next_channel env settings b ≡ some c
      → let b' = (publish_request env settings r b).1 in
        ((attempts b'.log ≡ attempts b.log ++ r ∷ []) × (b'.queue ≡ b.queue))
  unfolding publish_request
  publish_request-attempts r b h = ground arith

  pump-next_channel :
      (b : Backend)
      → next_channel env settings (pump_io_if_due env settings b).1 ≡ next_channel env settings b
  unfolding pump_io_if_due next_channel
  pump-next_channel b = ground arith

  pub get_request-attempts :
      (r : PublishRequest) (b : Backend) {c : ℕ}
      → next_channel env settings b ≡ some c
      → let b' = after_get env settings (some (some r)) b in
        ((attempts b'.log ≡ attempts b.log ++ r ∷ []) × (b'.queue ≡ b.queue))
  unfolding after_get
  get_request-attempts r b h =
      let piped = (pump_io_if_due env settings b).1 in
      ground (
        arith,
        pump-next_channel b,
        pump-Quiet b,
        publish_request-attempts r piped (pump-next_channel b ∙ h),
        recover-Quiet (publish_request env settings r piped).1,
      )

  pub get_other-Quiet :
      (b : Backend)
      → Quiet b (after_get env settings none b) × Quiet b (after_get env settings (some none) b)
  unfolding after_get
  get_other-Quiet b =
      let piped = (pump_io_if_due env settings b).1 in
      (ground (arith, pump-Quiet b), ground (arith, pump-Quiet b, clean_up-Quiet piped))

  pub next_channel-queue :
      (b : Backend) (rest : List (Option PublishRequest))
      → next_channel env settings (record b { queue = rest }) ≡ next_channel env settings b
  unfolding next_channel
  next_channel-queue b rest = refl

  -- One `get` moves the first request from the queue to what has been tried.
  get_from-history :
      (q : List (Option PublishRequest)) (b : Backend) {c : ℕ}
      → b.queue ≡ q
      → next_channel env settings b ≡ some c
      → history (get_from env settings q b) ≡ attempts b.log ++ requests q
  unfolding get_from
  get_from-history [] b e h =
      let quiet = (get_other-Quiet b).0 in
      ap₂ (λ l k. l ++ k) quiet.attempts (ap requests (quiet.queue ∙ e))
  get_from-history (none ∷ rest) b e h =
      let quiet = (get_other-Quiet (record b { queue = rest })).1 in
      ap₂ (λ l k. l ++ k) quiet.attempts (ap requests quiet.queue)
  get_from-history (some r ∷ rest) b e h =
      let tried =
        get_request-attempts r (record b { queue = rest }) (next_channel-queue b rest ∙ h) in
      ap₂ (λ l k. l ++ k) tried.0 (ap requests tried.1)
      ∙ append_assoc (attempts b.log) (r ∷ []) (requests rest)

  -- Every request that was accepted has been tried or is in the queue, in order.
  abbrev Fifo : System → Type 0
  Fifo u = history u.backend ≡ u.accepted

  Quiet-history : {b c : Backend} → Quiet b c → history c ≡ history b
  Quiet-history q = ap₂ (λ l k. l ++ k) q.attempts (ap requests q.queue)

  publish-history :
      (body : List ℕ) (key : Option String) (b : Backend)
      → history (publish env settings body key b) ≡ history b ++ request env settings body key ∷ []
  unfolding publish
  publish-history body key b =
      let r = request env settings body key in
      rw (requests-append b.queue (some r ∷ []))
        (sym (append_assoc (attempts b.log) (requests b.queue) (r ∷ [])))

  push_sentinel-history : (b : Backend) → history (push_sentinel env settings b) ≡ history b
  unfolding push_sentinel
  push_sentinel-history b =
      if_ind (λ c. history c ≡ history b) (is_full env settings b) (λ full. refl)
        (λ room.
          ap (λ k. attempts b.log ++ k)
            (requests-append b.queue (none ∷ []) ∙ append-nil (requests b.queue)))

  stop-history : (b : Backend) → history (stop env settings b) ≡ history b
  unfolding stop
  stop-history b =
      if_ind (λ c. history c ≡ history b) b.stop_event (λ set. refl)
        (λ clear. push_sentinel-history (record b { stop_event = true }))

  start-history : (b : Backend) → history (start env settings b) ≡ history b
  unfolding start
  start-history b = ground arith

  Step-Fifo :
      {u v : System}
      → 0 < settings.channels
      → IsPooled env settings u.backend
      → Step env settings u v
      → Fifo u
      → Fifo v
  unfolding get_phase
  Step-Fifo {u} some_channels pooled (publishes body key room e) h =
      rw (e, publish-history body key u.backend, h) refl
  Step-Fifo {u} some_channels pooled (stops e) h = rw e (stop-history u.backend ∙ h)
  Step-Fifo {u} some_channels pooled (late_sentinel e) h =
      rw e (push_sentinel-history u.backend ∙ h)
  Step-Fifo {u} some_channels pooled (starts e) h = rw e (start-history u.backend ∙ h)
  Step-Fifo {u} some_channels pooled (passes_head at_start e) h =
      rw e (Quiet-history (head_phase-Quiet u.backend) ∙ h)
  Step-Fifo {u} some_channels pooled (gets_item waits some_item e) h =
      let (c, ready) =
        next_channel-some env settings u.backend (omega (arith, pooled.full waits)) in
      rw e (get_from-history u.backend.queue u.backend refl ready ∙ h)

  -- Whatever the threads do, and however the calls end: what has been passed to `basic_publish`,
  -- followed by what waits in the queue, is what `publish` has accepted, in the same order. So each
  -- request is tried at most once, and none overtakes another.
  pub published_in_order :
      {u : System}
      → 0 < settings.channels
      → Reach env settings initial u
      → attempts u.backend.log ++ requests u.backend.queue ≡ u.accepted
  unfolding initial
  published_in_order some_channels here = refl
  published_in_order some_channels (next r step) =
      Step-Fifo some_channels (Reach-IsPooled env settings r) step
        (published_in_order some_channels r)
