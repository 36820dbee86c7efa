-- ===== src/AsyncSender/Coroutines.antt =====
-- `AsyncSender` in src/mq_adapters/async_adapter.py as coroutines: where they await, others may run.
pub mod Sequences
pub mod Alone
pub mod Interleaving
use rabbitmq_pika_adapter.Prelude.{
  ℕ, zero, suc, ◌+◌, String, Bool, true, false, not, ◌&&◌, Option, none, some, List, [], ◌∷◌, leb,
  length, if◌then◌else◌,
}
use rabbitmq_pika_adapter.Outcome.{
  Exception, assertion_error, runtime_error, overflow_error, Outcome, ok, raised,
}
use rabbitmq_pika_adapter.Value.{Value}
use rabbitmq_pika_adapter.Retry.Floats.{Seconds}
use rabbitmq_pika_adapter.Retry.{gives_up, delay_for_attempt}
use rabbitmq_pika_adapter.AsyncConnection.{Arguments, target}
use rabbitmq_pika_adapter.AsyncSender.World.{
  Call, connect, open_channel, declare_exchange, publish, gather_all, close_channel,
  close_connection, Env, Settings, Sender, call,
}
use rabbitmq_pika_adapter.AsyncSender.{
  Do, policy, of_destination, flag, batches, start_flusher, connected, cancel_flusher, key_of,
  begin, ready, last_error, modify,
}
use rabbitmq_pika_adapter.AsyncSender.Runs.{Operation, starts, flushes, stops, sends}

-- A `section` runs without an await: it changes the sender, and how it goes on is by the sender that it found.
pub data Coroutine : Type 0 where
  finished : Outcome (Unit {0}) → Coroutine
  section : (Sender → Sender) → (Sender → Coroutine) → Coroutine
  awaiting : Call → (Outcome (Unit {0}) → Coroutine) → Coroutine

unfoldable pub then_do : Coroutine → (Outcome (Unit {0}) → Coroutine) → Coroutine
then_do (finished r) k = k r
then_do (section f c) k = section f (λ w. then_do (c w) k)
then_do (awaiting c d) k = awaiting c (λ r. then_do (d r) k)

abbrev pub if_ok : Coroutine → Outcome (Unit {0}) → Coroutine
if_ok n (ok u) = n
if_ok n (raised e) = finished (raised e)

infixr 5 ◌then◌
abbrev pub ◌then◌ : Coroutine → Coroutine → Coroutine
m then n = then_do m (if_ok n)

abbrev pub returns : Coroutine
returns = finished (ok tt)

abbrev pub awaits_call : Call → Coroutine
awaits_call c = awaiting c finished

abbrev pub changes : (Sender → Sender) → Coroutine
changes f = section f (λ w. returns)

abbrev pub branches : (Sender → Bool) → Coroutine → Coroutine → Coroutine
branches b m n = section (λ w. w) (λ w. if b w then m else n)

-- `try: m` / `except Exception: pass`
abbrev pub suppressed : Coroutine → Coroutine
suppressed m = then_do m (λ r. returns)

module _ {s : Seconds} (env : Env s) (settings : Settings s) where
  abbrev pub after_delay : Option s.T → Coroutine → Coroutine
  after_delay none again = finished (raised overflow_error)
  after_delay (some d) again = again

  abbrev pub settle : ℕ → Outcome (Unit {0}) → Coroutine → Coroutine
  settle attempt (ok u) again = finished (ok u)
  settle attempt (raised e) again =
      if gives_up s (policy env settings) attempt
      then finished (raised e)
      else after_delay
          (delay_for_attempt s (policy env settings) (attempt + 1) (env.uniform attempt)) again

  -- The loop of `async_retry` on fuel.
  unfoldable pub attempts : ℕ → ℕ → Coroutine → Coroutine
  unfolding then_do gives_up delay_for_attempt
  attempts zero attempt m = finished (raised runtime_error)
  attempts (suc fuel) attempt m = then_do m (λ r. settle attempt r (attempts fuel (attempt + 1) m))

  unfoldable pub retried : Coroutine → Coroutine
  unfolding attempts
  retried m = attempts (suc settings.max_attempts) 1 m

  abbrev pub connect_to : Outcome (Option Arguments) → Coroutine
  connect_to (raised e) = finished (raised e)
  connect_to (ok arguments) = awaits_call (connect arguments)

  -- `_do_start`
  unfoldable pub do_start : Coroutine
  unfolding then_do target
  do_start =
      connect_to (target settings.source)
      then changes (λ w. record w { has_connection = true })
      then awaits_call (open_channel settings.confirm_delivery)
      then changes (λ w. record w { has_channel = true })
      then awaits_call (
          declare_exchange (of_destination env settings "exchange_name")
            (of_destination env settings "exchange_type")
            (flag env settings "exchange_durable" true)
            (flag env settings "exchange_auto_delete" false))
      then changes (λ w. record w { has_exchange = true })
      then changes (λ w. (start_flusher env settings w).1)

  -- `start`
  unfoldable pub start : Coroutine
  unfolding retried do_start
  start = branches (connected env settings) returns (retried do_start)

  -- `asyncio.gather`, of some publishes
  unfoldable pub gather : List ℕ → Coroutine
  gather [] = returns
  gather (n ∷ ns) = awaits_call (gather_all (n ∷ ns))

  -- `_flush_confirms`: the pending publishes are taken over before the first await.
  unfoldable pub flush_confirms : Coroutine
  unfolding gather
  flush_confirms = section (λ w. record w { pending = [] }) (λ w. gather w.pending)

  -- A round of `_flush_confirms_periodically`.
  unfoldable pub flush_round : Coroutine
  unfolding flush_confirms then_do
  flush_round = branches (connected env settings) (suppressed flush_confirms) returns

  abbrev pub is_full : Sender → Bool
  is_full w = leb settings.confirm_batch_size (length w.pending)

  unfoldable pub publish_now : List ℕ → Value → Coroutine
  unfolding flush_confirms then_do
  publish_now body key =
      branches (λ w. not w.has_exchange) (finished (raised assertion_error))
        (if batches env settings
          then changes (begin env settings body key)
          then branches is_full flush_confirms returns
          else awaits_call (publish body key))

  -- `_do_publish`
  unfoldable pub do_publish : List ℕ → Option String → Coroutine
  unfolding start publish_now then_do
  do_publish body routing_key =
      branches (ready env settings) returns start
      then publish_now body (key_of env settings routing_key)

  abbrev pub forget_on_error : Outcome (Unit {0}) → Coroutine
  forget_on_error (ok u) = finished (ok u)
  forget_on_error (raised e) =
      section (λ w. record w { has_channel = false; has_exchange = false; has_connection = false })
        (λ w. finished (raised e))

  -- `send`, of what the serializer has made of the message
  unfoldable pub send : Outcome (List ℕ) → Option String → Coroutine
  unfolding retried do_publish then_do
  send (raised e) routing_key = finished (raised e)
  send (ok body) routing_key = then_do (retried (do_publish body routing_key)) forget_on_error

  -- The `try` of `stop`, and its `finally`.
  unfoldable pub stop_body : Coroutine
  unfolding flush_confirms then_do
  stop_body =
      suppressed flush_confirms
      then changes (λ w. (cancel_flusher env settings w).1)
      then branches (λ w. w.has_channel && not (env.channel_closed w.log))
          (awaits_call close_channel) returns

  unfoldable pub stop_finally : Coroutine
  unfolding then_do
  stop_finally =
      changes (λ w. record w { has_channel = false; has_exchange = false })
      then branches (connected env settings) (awaits_call close_connection) returns
      then changes (λ w. record w { has_connection = false })

  -- `stop`
  unfoldable pub stop : Coroutine
  unfolding stop_body stop_finally then_do
  stop =
      then_do stop_body (λ r. then_do stop_finally (λ r2. finished (last_error env settings r r2)))

  unfoldable pub coroutine : Operation → Coroutine
  unfolding start send stop flush_round
  coroutine starts = start
  coroutine flushes = flush_round
  coroutine stops = stop
  coroutine (sends body routing_key) = send body routing_key

  -- One step of a coroutine: to its next await, or through it.
  unfoldable pub advance : Coroutine → Sender → Sender × Coroutine
  unfolding call
  advance (finished r) w = (w, finished r)
  advance (section f k) w = (f w, k w)
  advance (awaiting c k) w = let (r, w1) = call env c w in (w1, k r)

  -- A coroutine that nothing interrupts.
  unfoldable pub run_alone : Coroutine → Do env settings
  unfolding call
  run_alone (finished r) w = (r, w)
  run_alone (section f k) w = run_alone (k w) (f w)
  run_alone (awaiting c k) w = let (r, w1) = call env c w in run_alone (k r) w1
