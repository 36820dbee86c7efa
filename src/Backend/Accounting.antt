-- ===== src/Backend/Accounting.antt =====
-- The counters of the backend against the calls that it makes.
use rabbitmq_pika_adapter.Prelude.{
  ℕ, zero, suc, ◌≡◌, Option, none, some, List, [], ◌∷◌, arith, sum_map,
}
use rabbitmq_pika_adapter.Retry.Floats.{Seconds}
use rabbitmq_pika_adapter.Stats.{published, publish_failed, connections_opened, connections_closed}
use rabbitmq_pika_adapter.Backend.World.{
  PublishRequest, open_connection, open_channel, confirm_delivery, basic_publish, close_connection,
  Event, did, failed, counted, Env, Settings, Backend,
}
use rabbitmq_pika_adapter.Backend.{
  publish, push_sentinel, stop, start, add_channel, add_channels, open_new,
  ensure_connection_and_channels, pump_io_if_due, publish_request, recover, close_if_open,
  close_channels, clean_up, head_phase, after_get, get_from, get_phase,
}
use rabbitmq_pika_adapter.Backend.Threads.{
  System, Step, publishes, stops, late_sentinel, starts, passes_head, gets_item, Reach, here, next,
  initial,
}

abbrev pub is_published : Event → ℕ
is_published (did (basic_publish _ _)) = 1
is_published _ = 0

-- A publish or the set-up of publisher confirms that raised.
abbrev pub is_failure : Event → ℕ
is_failure (failed (basic_publish _ _)) = 1
is_failure (failed (confirm_delivery _)) = 1
is_failure _ = 0

abbrev pub is_opened : Event → ℕ
is_opened (did open_connection) = 1
is_opened _ = 0

abbrev pub is_closed : Event → ℕ
is_closed (did close_connection) = 1
is_closed _ = 0

abbrev pub is_channel : Event → ℕ
is_channel (did open_channel) = 1
is_channel _ = 0

abbrev pub counts_published : Event → ℕ
counts_published (counted published) = 1
counts_published _ = 0

abbrev pub counts_failed : Event → ℕ
counts_failed (counted publish_failed) = 1
counts_failed _ = 0

abbrev pub counts_opened : Event → ℕ
counts_opened (counted connections_opened) = 1
counts_opened _ = 0

abbrev pub counts_closed : Event → ℕ
counts_closed (counted connections_closed) = 1
counts_closed _ = 0

-- The counters and the diagnostics agree with the calls.
pub record IsBalanced (b : Backend) : Type 0 where
  pub published : sum_map counts_published b.log ≡ sum_map is_published b.log
  pub failures : sum_map counts_failed b.log ≡ sum_map is_failure b.log
  pub opened : sum_map counts_opened b.log ≡ sum_map is_opened b.log
  pub closed : sum_map counts_closed b.log ≡ sum_map is_closed b.log
  pub created : b.connections_created ≡ sum_map is_opened b.log
  pub channels : b.channels_created ≡ sum_map is_channel b.log

module _ {s : Seconds} (env : Env s) (settings : Settings s) where
  add_channel-IsBalanced : (b : Backend) → IsBalanced b → IsBalanced (add_channel env settings b).1
  unfolding add_channel
  add_channel-IsBalanced b h = ground arith

  add_channels-IsBalanced :
      (k : ℕ) (b : Backend) → IsBalanced b → IsBalanced (add_channels env settings k b).1
  unfolding add_channels
  add_channels-IsBalanced zero b h = h
  add_channels-IsBalanced (suc k) b h =
      ground (
        arith,
        add_channel-IsBalanced b h,
        add_channels-IsBalanced k (add_channel env settings b).1,
      )

  open_new-IsBalanced : (b : Backend) → IsBalanced b → IsBalanced (open_new env settings b).1
  unfolding open_new
  open_new-IsBalanced b h = ground arith

  ensure-IsBalanced :
      (b : Backend) → IsBalanced b → IsBalanced (ensure_connection_and_channels env settings b).1
  unfolding ensure_connection_and_channels
  ensure-IsBalanced b h = grind (arith, open_new-IsBalanced, add_channels-IsBalanced)

  pump-IsBalanced : (b : Backend) → IsBalanced b → IsBalanced (pump_io_if_due env settings b).1
  unfolding pump_io_if_due
  pump-IsBalanced b h = ground arith

  publish_request-IsBalanced :
      (r : PublishRequest) (b : Backend)
      → IsBalanced b
      → IsBalanced (publish_request env settings r b).1
  unfolding publish_request
  publish_request-IsBalanced r b h = ground arith

  recover-IsBalanced : (b : Backend) → IsBalanced b → IsBalanced (recover env settings b)
  unfolding recover
  recover-IsBalanced b h = ground arith

  close_if_open-IsBalanced :
      (c : ℕ) (b : Backend) → IsBalanced b → IsBalanced (close_if_open env settings c b)
  unfolding close_if_open
  close_if_open-IsBalanced c b h = ground arith

  close_channels-IsBalanced :
      (cs : List ℕ) (b : Backend) → IsBalanced b → IsBalanced (close_channels env settings cs b)
  unfolding close_channels
  close_channels-IsBalanced [] b h = h
  close_channels-IsBalanced (c ∷ cs) b h =
      close_channels-IsBalanced cs (close_if_open env settings c b) (close_if_open-IsBalanced c b h)

  clean_up-IsBalanced : (b : Backend) → IsBalanced b → IsBalanced (clean_up env settings b)
  unfolding clean_up
  clean_up-IsBalanced b h =
      let closed = close_channels-IsBalanced b.channels b h in ground (arith, closed)

  head_phase-IsBalanced : (b : Backend) → IsBalanced b → IsBalanced (head_phase env settings b)
  unfolding head_phase
  head_phase-IsBalanced b h =
      grind (arith, ensure-IsBalanced b h, recover-IsBalanced, clean_up-IsBalanced)

  after_get-IsBalanced :
      (item : Option (Option PublishRequest)) (b : Backend)
      → IsBalanced b
      → IsBalanced (after_get env settings item b)
  unfolding after_get
  after_get-IsBalanced none b h = ground (arith, pump-IsBalanced b h)
  after_get-IsBalanced (some none) b h =
      clean_up-IsBalanced (pump_io_if_due env settings b).1 (pump-IsBalanced b h)
  after_get-IsBalanced (some (some r)) b h =
      let piped = (pump_io_if_due env settings b).1 in
      let tried = publish_request-IsBalanced r piped (pump-IsBalanced b h) in
      ground (arith, tried, recover-IsBalanced (publish_request env settings r piped).1 tried)

  get_from-IsBalanced :
      (q : List (Option PublishRequest)) (b : Backend)
      → IsBalanced b
      → IsBalanced (get_from env settings q b)
  unfolding get_from
  get_from-IsBalanced [] b h = after_get-IsBalanced none b h
  get_from-IsBalanced (item ∷ rest) b h =
      after_get-IsBalanced (some item) (record b { queue = rest }) (ground arith)

  Step-IsBalanced :
      {u v : System} → Step env settings u v → IsBalanced u.backend → IsBalanced v.backend
  unfolding publish push_sentinel stop start get_phase
  Step-IsBalanced {u} (publishes body key room e) h = rw e (ground arith)
  Step-IsBalanced {u} (stops e) h = rw e (ground arith)
  Step-IsBalanced {u} (late_sentinel e) h = rw e (ground arith)
  Step-IsBalanced {u} (starts e) h = rw e (ground arith)
  Step-IsBalanced {u} (passes_head at_start e) h = rw e (head_phase-IsBalanced u.backend h)
  Step-IsBalanced {u} (gets_item waits some_item e) h =
      rw e (get_from-IsBalanced u.backend.queue u.backend h)

  -- Whatever the threads do, and however the calls end, `published` counts the publishes that
  -- returned, `publish_failed` those that raised and the failed set-ups of confirms, the connection
  -- counters the connections opened and closed, and the diagnostics what was created.
  pub Reach-IsBalanced : {u : System} → Reach env settings initial u → IsBalanced u.backend
  unfolding initial
  Reach-IsBalanced here = ground arith
  Reach-IsBalanced (next r step) = Step-IsBalanced step (Reach-IsBalanced r)
