-- ===== src/Session.antt =====
-- The session of `Listener` in src/mq_adapters/sync_adapter.py with its broker: setting up the channel and
-- its consumer, and `stop_listening`.
pub mod Construction
pub mod Limits
pub mod Setup
pub mod Stopping
pub mod Loop
pub mod Keeps
pub mod Flags
pub mod Reconnecting
pub mod Rounds
pub mod Pairing
pub mod Growth
pub mod Advancing
pub mod Running
use rabbitmq_pika_adapter.Prelude.{
  String, Bool, true, false, ◌&&◌, Option, none, some, List, [], ◌∷◌, if◌then◌else◌,
}
use rabbitmq_pika_adapter.Prelude.Int.{ℤ, pos}
use rabbitmq_pika_adapter.Outcome.{
  Exception, assertion_error, Outcome, ok, raised, Action, ◌>>=◌, ◌>>◌, pure, raise, try_except,
  suppress,
}
use rabbitmq_pika_adapter.Stats.{Counter, connections_closed}
use rabbitmq_pika_adapter.Value.{Value, Fields, null, integer, dict, get_or, truthy}
use rabbitmq_pika_adapter.DeadLettering.{resolve_queue_arguments}

-- The callback that the consumer gets.
pub data Wrapper : Type 0 where
  offloading automatic direct : Wrapper

-- Calls of the connection factory, of pika and of the executor. An empty dict of arguments is passed as None.
pub data Call : Type 0 where
  connect : Call
  process_data_events : Call
  open_channel : Call
  basic_qos : (prefetch_size prefetch_count : Value) → Call
  declare_predefined : (queue : Value) (arguments : Fields) → Call
  declare_anonymous : Call
  exchange_declare : (exchange exchange_type : Value) → Call
  queue_bind : (queue exchange routing_key : Value) → Call
  basic_consume : (queue : Value) → Wrapper → (auto_ack : Bool) → Call
  shutdown : Call
  add_callback_threadsafe : Call
  stop_consuming : Call
  close_channel : Call
  close_connection : Call

pub data Event : Type 0 where
  did failed : Call → Event
  counted : Counter → Event

abbrev pub Log : Type 0
Log = List Event

-- An answer is what the call returns: a name for `declare_anonymous`.
pub record Env : Type 0 where
  pub answer : Log → Call → Outcome Value
  pub connection_open : Log → Bool
  pub channel_open : Log → Bool

pub record Settings : Type 0 where
  pub auto_ack : Bool
  pub offload : Bool
  pub predefined_queue : Bool
  pub prefetch_settings : Option Fields
  pub destination : Fields

-- `has_channel` and `has_connection` say that the attribute is not None.
pub record Session : Type 0 where
  pub stop_me : Bool
  pub has_channel : Bool
  pub has_connection : Bool
  pub log : Log

module _ (env : Env) (settings : Settings) where
  abbrev pub Do : Type 0
  Do = Action Session (Unit {0})

  unfoldable pub call : Call → Action Session Value
  call c s = elim (env.answer s.log c) [
    | ok v ↦ (ok v, record s { log = did c ∷ s.log })
    | raised e ↦ (raised e, record s { log = failed c ∷ s.log })
  ]

  abbrev pub skip : Do
  skip = pure tt

  abbrev pub perform : Call → Do
  perform c = call c >>= λ _. skip

  -- `try: call` / `except Exception: log`
  unfoldable pub attempt : Call → Do
  unfolding call
  attempt c = try_except (perform c) (λ e. skip)

  unfoldable pub apply_qos : Do
  unfolding attempt truthy get_or
  apply_qos = elim settings.prefetch_settings [
    | none ↦ skip
    | some prefetch ↦
        if truthy (dict prefetch)
        then attempt (
            basic_qos (get_or "prefetch_size" (integer (pos 0)) prefetch)
              (get_or "prefetch_count" (integer (pos 0)) prefetch))
        else skip
  ]

  abbrev pub of_destination : String → Value
  of_destination key = get_or key null settings.destination

  -- The queue to consume from. A predefined queue is used even if its declaration fails.
  unfoldable pub declare_queue : Action Session Value
  unfolding attempt call truthy get_or resolve_queue_arguments
  declare_queue =
      if settings.predefined_queue && truthy (of_destination "predefined_queue_name")
      then (attempt (
            declare_predefined (of_destination "predefined_queue_name")
              (resolve_queue_arguments settings.destination))
          >> pure (of_destination "predefined_queue_name"))
      else call declare_anonymous

  -- The wrapper and the broker's `auto_ack` flag.
  unfoldable pub consume : Value → Do
  unfolding call
  consume queue =
      if settings.offload
      then perform (basic_consume queue offloading settings.auto_ack)
      else if settings.auto_ack
      then perform (basic_consume queue automatic true)
      else perform (basic_consume queue direct false)

  abbrev pub with_queue : Value → Do
  with_queue queue = do
    attempt (exchange_declare (of_destination "exchange_name") (of_destination "exchange_type"))
    attempt (queue_bind queue (of_destination "exchange_name") (of_destination "routing_key"))
    consume queue

  abbrev pub keep_channel : Do
  keep_channel s = (ok tt, record s { has_channel = true })

  -- `_setup_channel_and_consumer`
  unfoldable pub setup_channel_and_consumer : Do
  unfolding call attempt apply_qos declare_queue consume
  setup_channel_and_consumer s =
      if s.has_connection
      then ((perform open_channel >> keep_channel) >> apply_qos >> (declare_queue >>= with_queue)) s
      else (raised assertion_error, s)

  -- `self.__channel and is_open`
  abbrev pub channel_usable : Session → Bool
  channel_usable s = s.has_channel && env.channel_open s.log

  abbrev pub connection_usable : Session → Bool
  connection_usable s = s.has_connection && env.connection_open s.log

  abbrev pub when_channel : Do → Do
  when_channel body s = if channel_usable s then body s else skip s

  abbrev pub when_connection : Do → Do
  when_connection body s = if connection_usable s then body s else skip s

  -- Best-effort stop and close, from the calling thread.
  unfoldable pub close_directly : Do
  unfolding attempt call
  close_directly = do
    when_channel (attempt stop_consuming)
    when_channel (attempt close_channel)
    when_connection (attempt close_connection)

  abbrev pub count_closed : Do
  count_closed s = (ok tt, record s { log = counted connections_closed ∷ s.log })

  -- `_request_stop_and_close`, on the connection's thread
  unfoldable pub request_stop_and_close : Do
  unfolding attempt call
  request_stop_and_close = do
    when_channel (attempt stop_consuming >> attempt close_channel)
    when_connection (suppress (perform close_connection >> count_closed))

  abbrev pub shut_down : Do
  shut_down = if settings.offload then attempt shutdown else skip

  abbrev pub request_or_close : Do
  request_or_close s =
      if connection_usable s
      then try_except (perform add_callback_threadsafe) (λ e. close_directly) s
      else close_directly s

  -- `stop_listening`
  unfoldable pub stop_listening : Do
  unfolding attempt call close_directly
  stop_listening s = (shut_down >> request_or_close) (record s { stop_me = true })
