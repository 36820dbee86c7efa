-- ===== src/Lib.antt =====
-- The rabbitmq_pika_adapter library (src/mq_adapters): publishers and listeners for RabbitMQ on top of
-- pika and of aio-pika.
--
-- Parts, and how they interact. A publisher pool (publisher_pool.py) hands requests to a backend
-- (sync_publisher_backend.py), whose one thread owns a connection and its channels. A listener
-- (sync_adapter.py) gets deliveries on its connection's thread, runs the user's callback there or in
-- an executor, and settles each message by an acknowledgement, a rejection or a publish to a
-- dead-letter queue (dead_lettering.py). Both count what they do (stats.py) and wait between attempts
-- as a retry policy says (retry_policy.py). The async sender and listener (async_adapter.py) do the
-- same as coroutines, with tasks and a semaphore in place of threads. A client (client.py) makes pools
-- from connection parameters (helper_functions.py), shares them, and closes them.
--
-- Files, with their sources:
-- - Prelude, Prelude/*: library names, Boolean tests, lists, and integers over the native numbers.
-- - Value, Value/*: the dynamic values of destinations and headers, and what `int`, `str`, `strip`,
--   `lower` and truth make of them.
-- - Outcome, Outcome/*: exceptions as values, actions that return or raise beside the state, and
--   relations between the states before and after.
-- - Stats, Stats/Counting: `StatsSnapshot` is a record of integers, `Stats.inc` is `inc`, which is
--   `none` where the source raises AttributeError.
-- - DeadLettering, DeadLettering/*: `resolve_queue_arguments`, `resolve_dead_lettering_config` and
--   `retry_attempt_from_headers`, under their names.
-- - Retry, Retry/*: `RetryPolicy.delay_for_attempt`, `async_retry` and `sync_retry`, under their
--   names. Float arithmetic is the parameter `Seconds`, with the laws that a theorem needs in `Laws`.
-- - Listener, Listener/*: the handlers of `Listener`, which has the same names without their leading
--   underscore. Listener/System is the interleaving of the threads.
-- - Session, Session/*: the constructor of `Listener` (Session/Construction), its `run`
--   (Session/Loop), `_setup_channel_and_consumer` and `stop_listening`, with a state and an
--   environment of their own.
-- - Backend, Backend/*: `SyncPublishBackend`. One round of `_run` is `head_phase`, up to the `get` of
--   the queue, and `get_phase`. Backend/Threads is the interleaving with `publish`, `stop` and
--   `start`. Backend/Fifo is the queue that the backend promises, as a specification of its steps.
-- - AsyncConnection, AsyncConnection/*: `default_async_connection_factory` is `connect_arguments`, up
--   to the call of aio-pika; what the constructors of both async adapters share is in
--   AsyncConnection/Construction.
-- - AsyncSender, AsyncSender/*: `AsyncSender`; `_do_start` and `_do_publish` are `do_start` and
--   `do_publish`, and `retried` is the call of `async_retry`. AsyncSender/Keeps has the proof rule for
--   what all operations keep; the constructor is `make_sender`. In AsyncSender/Coroutines the
--   operations have the same names and are written with their awaits, for tasks that overlap.
-- - AsyncListener, AsyncListener/*: `AsyncListener`; `_run_handler` is `run_handler` from its
--   `acquire` on, AsyncListener/Lifecycle has `start` and `stop`, AsyncListener/Tasks the tasks in any
--   order; the constructor is `make_async_listener`.
-- - Settlement, Settlement/*: what both listeners promise about a message, as a specification: a
--   verdict and its effects on the broker.
-- - Connection, Connection/*: `make_connection_factory_from_params` and
--   `load_connection_params_from_env` of helper_functions.py, over the same dynamic values;
--   `os.getenv` is a parameter.
-- - LogLines: `destination_str` and `maybe_repr_bytes` of log.py.
-- - Serializer: `default_serializer`, over parameters for UTF-8 and JSON.
-- - PublisherPool, PublisherPool/*: `PublisherPool.__init__` is `make_pool`; `start`, `send` and `stop`
--   are in PublisherPool/Operations, on the backend's own operations.
-- - Client, Client/*: `RabbitMQClient.publisher` and `close` on the cache of sync pools, which are
--   numbered in the order of their creation (Client); `listener`, `async_publisher`, `async_listener`
--   and `aclose` (Client/Facade); the cache together with the pools, the handles that were given out
--   and the threads of all backends (Client/Publishing).
-- - Tests, Tests/*: runs at concrete inputs.
--
-- The environment. pika, the clock, the executor and the user's callback are parameters: a record
-- `Env` answers each call by the history of all calls and counts before it, so that it may fail at any
-- point and in any pattern. Calls and counts are written to a log, the last one first, and theorems on
-- behaviour speak of that log.
--
-- Bounds and fuel. The retry loops run on fuel: with `max_attempts` set that many rounds are enough,
-- and without it the power in the delay overflows. The async sender's policy has `max_attempts` set,
-- and its fuel is one more. The sync listener's loop takes fuel for its rounds and for the retries of
-- each connection; once it is asked to stop, as many of both as calls had been made before and one
-- more are enough. The loop over missing channels is recursion on their number. The publishing thread's
-- endless loop is a step relation, so it needs no fuel.
--
-- Not modelled: the writing of log lines, which is taken not to raise; the `join` of `stop`; the
-- sync listener's loop interleaved with its handlers (its reads of the stop flag are a parameter);
-- in the async sender, a policy without bound and cancellation of its operations by their caller (a
-- `gather` returns or raises at its first error, and the `cancel` of the flusher is a call in the
-- log, with the end of the flusher's `gather` as one of its answers); in the async listener, a
-- start after a stop while old tasks are left, whose releases would reach the new semaphore, and
-- the awaits inside the user's callback; `stats_snapshot` of the client's handles; cancellation of
-- tasks by the executor's shutdown; exceptions outside of `Exception`.
pub mod Prelude
pub mod Value
pub mod Outcome
pub mod Stats
pub mod DeadLettering
pub mod Retry
pub mod Listener
pub mod Backend
pub mod Connection
pub mod Serializer
pub mod LogLines
pub mod PublisherPool
pub mod Client
pub mod Session
pub mod AsyncConnection
pub mod AsyncSender
pub mod AsyncListener
pub mod Settlement
pub mod Tests
