-- ===== src/AsyncListener/Tasks/Settlement.antt =====
-- No message is settled twice.
use rabbitmq_pika_adapter.Prelude.{
  ℕ, ◌+◌, ◌≤◌, ◌≡◌, String, Bool, true, false, Option, none, some, List, ◌∷◌, ◌++◌, arith, ap,
  sum_map, sum_map-middle, ◌==◌, if◌then◌else◌, ◌⊎◌, inl, inr, Bool-cases,
}
use rabbitmq_pika_adapter.Outcome.{
  Exception, assertion_error, Outcome, ok, raised, Outcome-cases, is_cancelled,
}
use rabbitmq_pika_adapter.DeadLettering.{retry_attempt_from_headers}
use rabbitmq_pika_adapter.Listener.{poison_queue}
use rabbitmq_pika_adapter.AsyncListener.World.{
  Message, user_callback, ack, nack, publish, out_message, Event, did, failed, Env, Settings,
  Listener, call,
}
use rabbitmq_pika_adapter.AsyncListener.Calls.{call-ok, call-raised}
use rabbitmq_pika_adapter.AsyncListener.{
  publish_and_ack, dead_letter_to, poison_or_nack, on_failure, after_callback, run_handler, reject,
  config,
}
use rabbitmq_pika_adapter.AsyncListener.Tasks.Permits.{run_handler_kept}
use rabbitmq_pika_adapter.AsyncListener.Tasks.{
  System, Step, arrives, begins, abandons, ends, stops, Reach, here, next, started,
}

abbrev pub same : ℕ → ℕ → ℕ
same t u = if t == u then 1 else 0

-- An acknowledgement or a rejection of tag `t` that the broker has got.
abbrev pub settles : ℕ → Event → ℕ
settles t (did (ack u)) = same t u
settles t (did (nack u _)) = same t u
settles t _ = 0

abbrev pub has_tag : ℕ → Message → ℕ
has_tag t m = same t m.tag

module _ (env : Env) (settings : Settings) (t : ℕ) where
  abbrev settled : Listener → ℕ
  settled s = sum_map (settles t) s.log

  -- It has settled the message at most once, and not at all unless it returns true.
  abbrev AtMostOnce : Message → Listener → Outcome Bool × Listener → Type 0
  AtMostOnce m s (r, s') =
      ((r ≡ ok true) × (settled s' ≤ settled s + has_tag t m))
      ⊎ ((r ≡ ok false) × (settled s' ≡ settled s))
      ⊎ ((e : Exception) × (r ≡ raised e) × (settled s' ≡ settled s))

  publish_and_ack_once :
      (queue : String) (m : Message) (s : Listener)
      → AtMostOnce m s (publish_and_ack env settings queue m s)
  unfolding publish_and_ack
  publish_and_ack_once queue m s =
      let sending = publish (out_message m) queue in
      let s1 = record s { log = did sending ∷ s.log } in
      elim (Bool-cases s.has_channel) [
        | inr gone ↦ inr (inr (assertion_error, ground arith, ground arith))
        | inl there ↦ elim (Outcome-cases (env.answer s.log sending)) [
          | inr (e, fails) ↦
              let called = call-raised env sending s fails in
              inr (inr (e, ground (arith, called), ground (arith, called)))
          | inl sent ↦
              let called = call-ok env sending s sent in
              elim (Outcome-cases (env.answer s1.log (ack m.tag))) [
                | inl acked ↦
                    let acks = call-ok env (ack m.tag) s1 acked in
                    inl (grind (arith, called, acks), grind (arith, called, acks))
                | inr (e, fails) ↦
                    let acks = call-raised env (ack m.tag) s1 fails in
                    inr (inr (e, grind (arith, called, acks), grind (arith, called, acks)))
              ]
        ]
      ]

  dead_letter_to_once :
      (queue : String) (m : Message) (s : Listener)
      → AtMostOnce m s (publish_and_ack env settings queue m s)
      → AtMostOnce m s (dead_letter_to env settings queue m s)
  unfolding dead_letter_to
  dead_letter_to_once queue m s (inl done) = inl (ground arith)
  dead_letter_to_once queue m s (inr (inl refuses)) = inr (inl (ground arith))
  dead_letter_to_once queue m s (inr (inr (e, raises, same_log))) =
      elim (Bool-cases (is_cancelled e)) [
        | inl cancels ↦ inr (inr (e, ground arith, ground arith))
        | inr goes_on ↦ inr (inl (ground arith, ground arith))
      ]

  reject_once :
      (m : Message) (s : Listener) → settled (reject env settings m s).1 ≤ settled s + has_tag t m
  unfolding call
  reject_once m s = ground arith

  poison_or_nack_once :
      (o : Option String) (m : Message) (s : Listener)
      → settled (poison_or_nack env settings o m s).1 ≤ settled s + has_tag t m
  poison_or_nack_once none m s = reject_once m s
  poison_or_nack_once (some queue) m s =
      let (r, s') = dead_letter_to env settings queue m s in
      ground
        (arith, dead_letter_to_once queue m s (publish_and_ack_once queue m s), reject_once m s')

  on_failure_once :
      (m : Message) (s : Listener)
      → settled (on_failure env settings m s).1 ≤ settled s + has_tag t m
  unfolding on_failure
  on_failure_once m s =
      let poison = poison_queue (config env settings) (retry_attempt_from_headers m.headers) in
      ground (arith, poison_or_nack_once poison m s)

  after_callback_once :
      (m : Message) (r : Outcome (Unit {0})) (s : Listener)
      → settled (after_callback env settings m r s).1 ≤ settled s + has_tag t m
  unfolding after_callback
  after_callback_once m r s = elim (Outcome-cases (env.answer s.log (ack m.tag))) [
    | inl acked ↦ ground (arith, call-ok env (ack m.tag) s acked, on_failure_once m s)
    | inr (e, fails) ↦ ground (
      arith,
      call-raised env (ack m.tag) s fails,
      on_failure_once m s,
      on_failure_once m (record s { log = failed (ack m.tag) ∷ s.log }),
    )
  ]

  run_handler_once :
      (m : Message) (s : Listener)
      → settled (run_handler env settings m s) ≤ settled s + has_tag t m
  unfolding run_handler call
  run_handler_once m s =
      let (r, s1) = call env (user_callback m) s in ground (arith, after_callback_once m r s1)

  -- The settlements of tag `t` that have happened or can still happen.
  abbrev account : Listener → ℕ
  account s = settled s + sum_map (has_tag t) s.waiting + sum_map (has_tag t) s.running

  abbrev Fair : System → Type 0
  Fair s = account s.listener ≤ sum_map (has_tag t) s.delivered

  ends-Fair :
      (m : Message) (before after : List Message) (s : System)
      → s.listener.running ≡ before ++ m ∷ after
      → Fair s
      → Fair (record s {
        listener = run_handler env settings m (record s.listener { running = before ++ after });
      })
  ends-Fair m before after s runs h =
      let moved = record s.listener { running = before ++ after } in
      let kept = run_handler_kept env settings m moved in
      let weights = ap (sum_map (has_tag t)) runs in
      omega (
        arith,
        run_handler_once m moved,
        ap (sum_map (has_tag t)) kept.0,
        ap (sum_map (has_tag t)) kept.1,
        weights,
        sum_map-middle (has_tag t) before m after,
      )

  Step-Fair : {s u : System} → Step env settings s u → Fair s → Fair u
  Step-Fair {s} (arrives m e) h = rw e (omega arith)
  Step-Fair {s} (begins m before after permits waits free e) h =
      rw e
        (omega (arith, ap (sum_map (has_tag t)) waits, sum_map-middle (has_tag t) before m after))
  Step-Fair {s} (abandons m before after waits e) h =
      rw e
        (omega (arith, ap (sum_map (has_tag t)) waits, sum_map-middle (has_tag t) before m after))
  Step-Fair {s} (ends m before after runs e) h = rw e (ends-Fair m before after s runs h)
  Step-Fair {s} (stops e) h = rw e h

  Reach-Fair : {u : System} → Reach env settings (started settings) u → Fair u
  unfolding started
  Reach-Fair here = omega arith
  Reach-Fair (next r step) = Step-Fair step (Reach-Fair r)

  -- Whatever the tasks do, and however the calls end or are cancelled, the broker gets at most one
  -- acknowledgement or rejection for each delivery of a tag.
  pub async_settled_at_most_once :
      {u : System}
      → Reach env settings (started settings) u
      → sum_map (settles t) u.listener.log ≤ sum_map (has_tag t) u.delivered
  async_settled_at_most_once r = omega (arith, Reach-Fair r)
