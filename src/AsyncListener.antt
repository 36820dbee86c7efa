-- ===== src/AsyncListener.antt =====
-- The message handler of `AsyncListener` in src/mq_adapters/async_adapter.py.
pub mod World
pub mod Calls
pub mod Construction
pub mod Lifecycle
pub mod Tasks
pub mod Once
pub mod SetUp
pub mod Stopping
unfoldable pub use World.*
use rabbitmq_pika_adapter.Prelude.{
  ℕ, suc, String, Bool, true, false, not, Option, none, some, text_eq, if◌then◌else◌,
}
use rabbitmq_pika_adapter.Prelude.Int.{ℤ}
use rabbitmq_pika_adapter.Outcome.{
  Exception, assertion_error, Outcome, ok, raised, Action, ◌>>=◌, ◌>>◌, pure, raise, async_try,
}
use rabbitmq_pika_adapter.DeadLettering.{
  DeadLetteringConfig, dead_letter, resolve_dead_lettering_config, retry_attempt_from_headers,
}
use rabbitmq_pika_adapter.Listener.{poison_queue}

module _ (env : Env) (settings : Settings) where
  abbrev pub Handler : Type 0
  Handler = Action Listener (Unit {0})

  abbrev pub skip : Handler
  skip = pure tt

  -- `cfg`, which `start` resolves
  unfoldable pub config : DeadLetteringConfig
  unfolding resolve_dead_lettering_config
  config = resolve_dead_lettering_config settings.render settings.destination

  abbrev pub assert_channel : Handler
  assert_channel s = if s.has_channel then skip s else raise assertion_error s

  -- The body of the inner `try`.
  unfoldable pub publish_and_ack : String → Message → Action Listener Bool
  unfolding call
  publish_and_ack queue m = do
    assert_channel
    call env (publish (out_message m) queue)
    call env (ack m.tag)
    pure true

  -- To the dead-letter queue, and then an ack; whether that worked.
  unfoldable pub dead_letter_to : String → Message → Action Listener Bool
  unfolding publish_and_ack
  dead_letter_to queue m = async_try (publish_and_ack queue m) (λ e. pure false)

  abbrev pub reject : Message → Handler
  reject m = call env (nack m.tag (not (text_eq config.on_error dead_letter)))

  abbrev pub unless_done : Message → Bool → Handler
  unless_done m true = skip
  unless_done m false = reject m

  abbrev pub poison_or_nack : Option String → Message → Handler
  poison_or_nack none m = reject m
  poison_or_nack (some queue) m = dead_letter_to queue m >>= unless_done m

  -- The handler of the outer `except`.
  unfoldable pub on_failure : Message → Handler
  unfolding poison_queue retry_attempt_from_headers config dead_letter_to call
  on_failure m =
      if settings.auto_ack
      then skip
      else async_try (poison_or_nack (poison_queue config (retry_attempt_from_headers m.headers)) m)
          (λ e. skip)

  abbrev pub ack_unless_auto : Message → Handler
  ack_unless_auto m = if settings.auto_ack then skip else call env (ack m.tag)

  abbrev pub as_action : Outcome (Unit {0}) → Handler
  as_action r s = (r, s)

  -- What `_run_handler` does when the callback has ended with `r`, up to its `finally`.
  unfoldable pub after_callback : Message → Outcome (Unit {0}) → Handler
  unfolding on_failure call
  after_callback m r = async_try (as_action r >> ack_unless_auto m) (λ e. on_failure m)

  abbrev pub released : Option ℕ → Option ℕ
  released none = none
  released (some permits) = some (suc permits)

  -- The `finally`; with no semaphore left, the error is swallowed.
  abbrev pub release : Listener → Listener
  release s = record s { semaphore = released s.semaphore }

  -- `_run_handler` from its `acquire` on
  unfoldable pub run_handler : Message → Listener → Listener
  unfolding call after_callback
  run_handler m s = let (r, s1) = call env (user_callback m) s in release (after_callback m r s1).1
