-- ===== src/Tests/Coroutines.antt =====
-- Two sends of one sender that overlap.
use rabbitmq_pika_adapter.Prelude.{
  ℕ, zero, suc, ◌++◌, sym, ◌+◌, ◌≤◌, ◌≡◌, refl, true, none, some, List, [], ◌∷◌, All,
}
use mathlib.Core.List.{append_assoc}
use rabbitmq_pika_adapter.Outcome.{ok}
use rabbitmq_pika_adapter.AsyncSender.Runs.{Operation, sends}
use rabbitmq_pika_adapter.AsyncSender.Confirms.{times_awaited, times_pending, once_below}
use rabbitmq_pika_adapter.AsyncSender.Coroutines.{Coroutine, coroutine, advance}
use rabbitmq_pika_adapter.AsyncSender.Coroutines.Interleaving.{
  System, new_system, Reach, here, next, calls, advances,
}
use rabbitmq_pika_adapter.AsyncSender.Coroutines.Interleaving.Once.{has_finished, interleaved_once}
use rabbitmq_pika_adapter.AsyncSender.Coroutines.{
  send, do_publish, start, do_start, retried, attempts, publish_now, then_do, flush_confirms,
  gather,
}
use rabbitmq_pika_adapter.AsyncSender.World.{Sender}
use rabbitmq_pika_adapter.Tests.AsyncSender.{settings, env}

abbrev first : Operation
first = sends (ok (7 ∷ [])) none

abbrev repeated : ℕ → List ℕ
repeated zero = []
repeated (suc n) = 0 ∷ 1 ∷ repeated n

abbrev second : Operation
second = sends (ok (8 ∷ [])) (some "k")

-- The task at a position goes one step.
abbrev advance_at : ℕ → List Coroutine → Sender → Sender × List Coroutine
advance_at n [] w = (w, [])
advance_at zero (c ∷ cs) w = let (v, d) = advance env settings c w in (v, d ∷ cs)
advance_at (suc n) (c ∷ cs) w = let (v, ds) = advance_at n cs w in (v, c ∷ ds)

-- The positions of the tasks that go a step, one after another.
abbrev scheduled : List ℕ → System → System
scheduled [] u = u
scheduled (n ∷ ns) u =
    let (w, cs) = advance_at n u.tasks u.sender in scheduled ns (record { sender = w; tasks = cs })

advance_at-Reach :
    (u : System) (n : ℕ) (before cs : List Coroutine) (w : Sender)
    → Reach env settings u (record { sender = w; tasks = before ++ cs })
    → let (v, ds) = advance_at n cs w in
      Reach env settings u (record { sender = v; tasks = before ++ ds })
advance_at-Reach u n before [] w r = r
advance_at-Reach u zero before (c ∷ cs) w r = next r (advances c before cs refl refl)
advance_at-Reach u (suc n) before (c ∷ cs) w r =
    let ds = (advance_at n cs w).1 in
    let moved : Reach env settings u (record { sender = w; tasks = (before ++ c ∷ []) ++ cs }) =
      rw (append_assoc before (c ∷ []) cs) r in
    rw (sym (append_assoc before (c ∷ []) ds)) (advance_at-Reach u n (before ++ c ∷ []) cs w moved)

scheduled-Reach :
    (u : System) (ns : List ℕ) (v : System)
    → Reach env settings u v
    → Reach env settings u (scheduled ns v)
scheduled-Reach u [] v r = r
scheduled-Reach u (n ∷ ns) v r =
    let (w, cs) = advance_at n v.tasks v.sender in
    scheduled-Reach u ns (record { sender = w; tasks = cs })
      (advance_at-Reach u n [] v.tasks v.sender r)

abbrev called : System
called = record new_system {
  tasks = coroutine env settings second ∷ coroutine env settings first ∷ [];
}

called-Reach : Reach env settings new_system called
unfolding new_system
called-Reach = next (next here (calls first refl)) (calls second refl)

-- Both send their message, in turns, to their end.
abbrev both : System
both = scheduled (repeated 20) called

interleaved_once_example :
    (times_awaited 1 both.sender + times_pending 1 both.sender ≤ once_below both.sender.begun 1)
    × (All (λ c. has_finished c ≡ true) both.tasks
        → times_awaited 1 both.sender + times_pending 1 both.sender
          ≡ once_below both.sender.begun 1)
interleaved_once_example =
    interleaved_once env settings 1 (scheduled-Reach new_system (repeated 20) called called-Reach)

-- The first publish failed, so the send that awaited both publishes has published once more, and returned.
both-begun :
    (both.sender.begun ≡ 3)
    × (both.sender.pending ≡ 2 ∷ [])
    × All (λ c. has_finished c ≡ true) both.tasks
unfolding new_system coroutine send retried attempts do_publish start do_start publish_now then_do
    flush_confirms gather advance
both-begun = (refl, refl, (refl, (refl, tt)))
