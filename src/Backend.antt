-- ===== src/Backend.antt =====
-- src/mq_adapters/sync_publisher_backend.py: one thread owns the connection and its channels and
-- publishes what the other threads put into a queue.
pub mod World
pub mod Threads
pub mod Pool
pub mod Order
pub mod Fifo
pub mod Accounting
pub mod Stopping
unfoldable pub use World.*
use rabbitmq_pika_adapter.Prelude.{
  ℕ, zero, suc, ◌+◌, ◌-◌, ◌%◌, String, Bool, true, false, not, ◌||◌, ◌&&◌, Option, none, some, List,
  [], ◌∷◌, ◌++◌, ltb, leb, ◌==◌, if◌then◌else◌, length, get_elem?, str_eq,
}
use rabbitmq_pika_adapter.Outcome.{
  Exception, external, overflow_error, Outcome, ok, raised, Action, ◌>>=◌, ◌>>◌, pure, raise,
  try_except,
}
use rabbitmq_pika_adapter.Value.{Value, string}
use rabbitmq_pika_adapter.Stats.{
  published, publish_failed, connections_opened, connections_closed, reconnect_attempts,
}
use rabbitmq_pika_adapter.Retry.Floats.{Seconds}
use rabbitmq_pika_adapter.Retry.{delay_for_attempt}

-- `routing_key or self._default_routing_key`
abbrev pub or_default : Option String → Value → Value
or_default none default = default
or_default (some k) default = if str_eq k "" then default else string k

module _ {s : Seconds} (env : Env s) (settings : Settings s) where
  abbrev pub Do : Type 0
  Do = Action Backend (Unit {0})

  abbrev pub skip : Do
  skip = pure tt

  -- `Queue.full()`; `maxsize` 0 is no bound
  unfoldable pub is_full : Backend → Bool
  is_full b = ltb 0 settings.queue_maxsize && leb settings.queue_maxsize (length b.queue)

  unfoldable pub request : List ℕ → Option String → PublishRequest
  request body routing_key = record {
    body = body;
    exchange = settings.exchange;
    routing_key = or_default routing_key settings.default_routing_key;
  }

  -- `publish`, when the queue has room: `put` waits for that
  unfoldable pub publish : List ℕ → Option String → Backend → Backend
  unfolding request
  publish body routing_key b = record b { queue = b.queue ++ some (request body routing_key) ∷ [] }

  -- `put(None)`; without room it is given up after a second
  unfoldable pub push_sentinel : Backend → Backend
  unfolding is_full
  push_sentinel b = if is_full b then b else record b { queue = b.queue ++ none ∷ [] }

  -- `stop`, without the `join`
  unfoldable pub stop : Backend → Backend
  unfolding push_sentinel
  stop b = if b.stop_event then b else push_sentinel (record b { stop_event = true })

  abbrev is_absent : Place → Bool
  is_absent absent = true
  is_absent _ = false

  -- `start`: the new thread begins `_run` with fresh locals
  unfoldable pub start : Backend → Backend
  start b =
      if is_absent b.place
      then record b {
        stop_event = false;
        place = at_head;
        connected = false;
        channels = [];
        ch_index = 0;
        next_heartbeat = env.now b.log;
      }
      else b

  -- `if self._confirm_delivery: …` on a new channel
  abbrev confirm_if_wanted : ℕ → Do
  confirm_if_wanted channel =
      if settings.confirm_delivery
      then try_except (call env (confirm_delivery channel)) (λ e. count publish_failed)
      else skip

  -- One round of the `while` in `_ensure_connection_and_channels`.
  unfoldable pub add_channel : Do
  unfolding call count
  add_channel b =
      (do
        call env open_channel
        modify (λ b1. record b1 { channels_created = b1.channels_created + 1 })
        confirm_if_wanted b.channels_created
        modify (λ b2. record b2 { channels = b2.channels ++ b.channels_created ∷ [] }))
        b

  -- The loop: each round adds one channel, so the missing channels bound the rounds.
  unfoldable pub add_channels : ℕ → Do
  add_channels zero = skip
  add_channels (suc missing) = let rest = add_channels missing in add_channel >> rest

  unfoldable pub open_new : Do
  unfolding call count
  open_new = do
    call env open_connection
    modify (λ b. record b { connected = true; connections_created = b.connections_created + 1 })
    count connections_opened
    modify (λ b. record b { channels = []; ch_index = 0 })

  -- `_ensure_connection_and_channels`
  unfoldable pub ensure_connection_and_channels : Do
  unfolding open_new add_channels
  ensure_connection_and_channels b =
      (do
        (if not b.connected || not (env.connection_open b.log) then open_new else skip)
        λ b1. add_channels (settings.channels - length b1.channels) b1)
        b

  abbrev pump : Bool → Do
  pump usable = if usable then try_except (call env process_data_events) (λ e. skip) else skip

  -- `_pump_io_if_due`
  unfoldable pub pump_io_if_due : Do
  unfolding call
  pump_io_if_due b =
      let now = env.now b.log in
      if settings.heartbeat_interval == 0 || ltb now b.next_heartbeat
      then skip b
      else (do
        modify (λ b1. record b1 { next_heartbeat = now + settings.heartbeat_interval })
        pump (b.connected && env.connection_open b.log))
          b

  -- `channels[ch_index % len(channels)]`; with no channels that raises
  unfoldable pub next_channel : Backend → Option ℕ
  next_channel b =
      if length b.channels == 0 then none else get_elem? b.channels (b.ch_index % length b.channels)

  abbrev publish_on : PublishRequest → Option ℕ → Do
  publish_on r none = raise (external 0)
  publish_on r (some channel) = do
    modify (λ b. record b { ch_index = b.ch_index + 1 })
    try_except (call env (basic_publish channel r) >> count published)
        (λ e. count publish_failed >> raise e)

  unfoldable pub publish_request : PublishRequest → Do
  unfolding call count next_channel
  publish_request r b = publish_on r (next_channel b) b

  abbrev close_open_connection : Do
  close_open_connection b =
      if b.connected && env.connection_open b.log
      then try_except (call env close_connection >> count connections_closed) (λ e. skip) b
      else skip b

  -- The rest of the outer `except`, after its delay. An OverflowError of the delay leaves `_run`: the
  -- thread is gone.
  unfoldable pub reset : Option s.T → Backend → Backend
  unfolding call count
  reset none b = record b { place = absent }
  reset (some delay) b =
      let b1 = (close_open_connection b).1 in
      record b1 {
        place = at_head;
        connected = false;
        channels = [];
        next_heartbeat = env.now b1.log + settings.heartbeat_interval;
      }

  -- The outer `except`.
  unfoldable pub recover : Backend → Backend
  unfolding reset count
  recover b =
      let failures = b.reconnect_failures + 1 in
      let b1 = (count reconnect_attempts (record b { reconnect_failures = failures })).1 in
      reset
        (delay_for_attempt s settings.reconnect_retry_policy (failures + 1) (env.uniform b1.log)) b1

  abbrev ignore : Do → Backend → Backend
  ignore m b = (m b).1

  -- `if ch.is_open: ch.close()`, with errors swallowed
  unfoldable pub close_if_open : ℕ → Backend → Backend
  unfolding call
  close_if_open c b = if env.channel_open b.log c then ignore (call env (close_channel c)) b else b

  -- The cleanup loop over the channels.
  unfoldable pub close_channels : List ℕ → Backend → Backend
  unfolding close_if_open
  close_channels [] b = b
  close_channels (c ∷ cs) b = close_channels cs (close_if_open c b)

  -- After the loop: the thread closes what is open and ends.
  unfoldable pub clean_up : Backend → Backend
  unfolding close_channels call count
  clean_up b = record (close_open_connection (close_channels b.channels b)).1 { place = absent }

  abbrev or_recover : (Backend → Backend) → Outcome (Unit {0}) × Backend → Backend
  or_recover f (ok _, b) = f b
  or_recover f (raised _, b) = recover b

  -- From the head of the loop to the `get`.
  unfoldable pub head_phase : Backend → Backend
  unfolding ensure_connection_and_channels recover clean_up
  head_phase b =
      if b.stop_event
      then clean_up b
      else or_recover (λ b1. record b1 { reconnect_failures = 0; place = at_get })
          (ensure_connection_and_channels b)

  -- The rest of the round, with the queue's first item: `some none` is the sentinel, `none` the
  -- heartbeat after a timeout.
  unfoldable pub after_get : Option (Option PublishRequest) → Backend → Backend
  unfolding pump_io_if_due publish_request recover clean_up
  after_get item b =
      let b1 = (pump_io_if_due b).1 in
      elim item [
        | none ↦ record b1 { place = at_head }
        | some none ↦ clean_up b1
        | some (some r) ↦ or_recover (λ b2. record b2 { place = at_head }) (publish_request r b1)
      ]

  unfoldable pub get_from : List (Option PublishRequest) → Backend → Backend
  unfolding after_get
  get_from [] b = after_get none b
  get_from (item ∷ rest) b = after_get (some item) (record b { queue = rest })

  -- `get`, once there is an item or the wait has timed out
  unfoldable pub get_phase : Backend → Backend
  unfolding get_from
  get_phase b = get_from b.queue b
