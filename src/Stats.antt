-- ===== src/Stats.antt =====
-- src/mq_adapters/stats.py: the in-process counters. The lock makes each method one step, so a run
-- of several threads is a list of such steps in some order.
pub mod Counting
use rabbitmq_pika_adapter.Prelude.{String, Option, none, some, List, [], ◌∷◌, str_eq, if◌then◌else◌}
use rabbitmq_pika_adapter.Prelude.Int.{ℤ, pos, ◌+ℤ◌}

pub record StatsSnapshot : Type 0 where
  pub published : ℤ
  pub publish_failed : ℤ
  pub received : ℤ
  pub handler_exceptions : ℤ
  pub acked : ℤ
  pub nacked : ℤ
  pub reconnect_attempts : ℤ
  pub connections_opened : ℤ
  pub connections_closed : ℤ

-- The fields of the snapshot.
pub data Counter : Type 0 where
  published publish_failed received handler_exceptions acked nacked : Counter
  reconnect_attempts connections_opened connections_closed : Counter

unfoldable pub counter_name : Counter → String
counter_name published = "published"
counter_name publish_failed = "publish_failed"
counter_name received = "received"
counter_name handler_exceptions = "handler_exceptions"
counter_name acked = "acked"
counter_name nacked = "nacked"
counter_name reconnect_attempts = "reconnect_attempts"
counter_name connections_opened = "connections_opened"
counter_name connections_closed = "connections_closed"

-- `hasattr` on the snapshot. Its other attributes (methods) hold no number, so `inc` raises on them
-- too.
unfoldable pub counter_of : String → Option Counter
counter_of s =
    if str_eq s "published"
    then some published
    else if str_eq s "publish_failed"
    then some publish_failed
    else if str_eq s "received"
    then some received
    else if str_eq s "handler_exceptions"
    then some handler_exceptions
    else if str_eq s "acked"
    then some acked
    else if str_eq s "nacked"
    then some nacked
    else if str_eq s "reconnect_attempts"
    then some reconnect_attempts
    else if str_eq s "connections_opened"
    then some connections_opened
    else if str_eq s "connections_closed"
    then some connections_closed
    else none

-- `getattr(snapshot, field)`
unfoldable pub read : Counter → StatsSnapshot → ℤ
read published s = s.published
read publish_failed s = s.publish_failed
read received s = s.received
read handler_exceptions s = s.handler_exceptions
read acked s = s.acked
read nacked s = s.nacked
read reconnect_attempts s = s.reconnect_attempts
read connections_opened s = s.connections_opened
read connections_closed s = s.connections_closed

-- `setattr(snapshot, field, v)`
unfoldable pub write : Counter → ℤ → StatsSnapshot → StatsSnapshot
write published v s = record s { published = v }
write publish_failed v s = record s { publish_failed = v }
write received v s = record s { received = v }
write handler_exceptions v s = record s { handler_exceptions = v }
write acked v s = record s { acked = v }
write nacked v s = record s { nacked = v }
write reconnect_attempts v s = record s { reconnect_attempts = v }
write connections_opened v s = record s { connections_opened = v }
write connections_closed v s = record s { connections_closed = v }

inc_at : Option Counter → ℤ → StatsSnapshot → Option StatsSnapshot
inc_at none value s = none
inc_at (some c) value s = some (write c (read c s +ℤ value) s)

-- `Stats.inc`; `none` where it raises
unfoldable pub inc : String → ℤ → StatsSnapshot → Option StatsSnapshot
unfolding counter_of read write inc_at
inc name value s = inc_at (counter_of name) value s

-- `Stats.__init__`, `Stats.reset`
unfoldable pub fresh : StatsSnapshot
fresh = record {
  published = pos 0;
  publish_failed = pos 0;
  received = pos 0;
  handler_exceptions = pos 0;
  acked = pos 0;
  nacked = pos 0;
  reconnect_attempts = pos 0;
  connections_opened = pos 0;
  connections_closed = pos 0;
}

abbrev else_keep : Option StatsSnapshot → StatsSnapshot → StatsSnapshot
else_keep none s = s
else_keep (some s') s = s'

-- The calls of `inc` that any threads make, in the order in which they get the lock. A call that
-- raises changes nothing.
unfoldable pub run_incs : List (String × ℤ) → StatsSnapshot → StatsSnapshot
run_incs [] s = s
run_incs ((name, value) ∷ rest) s = run_incs rest (else_keep (inc name value s) s)
