-- ===== src/Session/Pairing.antt =====
-- The listener's thread between its rounds.
use rabbitmq_pika_adapter.Prelude.{
  ℕ, ◌≡◌, refl, ◌⊎◌, inl, inr, Bool, false, Option, none, some, along_some,
}
use rabbitmq_pika_adapter.Outcome.{Outcome, ok}
use rabbitmq_pika_adapter.Retry.Floats.{Seconds}
use rabbitmq_pika_adapter.Retry.{RetryPolicy}
use rabbitmq_pika_adapter.Session.{Log, Env, Settings, Session}
use rabbitmq_pika_adapter.Session.Flags.{BothOpen}
use rabbitmq_pika_adapter.Session.Loop.{
  Thread, then_serve, connect_if_needed, round, new_thread, Reach, here, next,
}
use rabbitmq_pika_adapter.Session.Reconnecting.{serving, backing_off, stopping, lost, BothClosed}
use rabbitmq_pika_adapter.Session.Rounds.{Ends, serve-Ending}

module _ (s : Seconds) (env : Env) (settings : Settings) (asked : Log → Bool)
    (connect_policy loop_policy : RetryPolicy s) (uniform : ℕ → s.T → s.T → s.T) where
  -- A channel and a connection and no failures, or neither of the two.
  abbrev pub Paired : Thread → Type 0
  Paired w =
      (BothOpen env settings w.session × (w.failures ≡ 0))
      ⊎ BothClosed s env settings asked connect_policy loop_policy uniform w.session

  then_serve-Ends :
      (w : Thread) (o : Option (Outcome (Unit {0}) × Session)) {res : Outcome (Unit {0}) × Thread}
      → then_serve s env settings asked connect_policy loop_policy uniform w o ≡ some res
      → Ends s env settings asked connect_policy loop_policy uniform res
  then_serve-Ends w none h = absurd (cc)
  then_serve-Ends w (some (r, v)) h =
      along_some (Ends s env settings asked connect_policy loop_policy uniform) h (
        serve-Ending s env settings asked connect_policy loop_policy uniform r
          (record w { session = v }))

  pub round-Ends :
      (fuel : ℕ) (w : Thread) {res : Outcome (Unit {0}) × Thread}
      → round s env settings asked connect_policy loop_policy uniform fuel w ≡ some res
      → Ends s env settings asked connect_policy loop_policy uniform res
  unfolding round
  round-Ends fuel w h =
      then_serve-Ends w
        (connect_if_needed s env settings asked connect_policy loop_policy uniform fuel w.session) h

  going-Paired :
      (u : Thread)
      → Ends s env settings asked connect_policy loop_policy uniform (ok tt, u)
      → asked u.session.log ≡ false
      → Paired u
  going-Paired u (serving e channel connection none_failed) going =
      inl ((channel, connection), none_failed)
  going-Paired u (backing_off d e closed delay) going = inr closed
  going-Paired u (stopping e h) going = absurd (cc)
  going-Paired u (lost e closed delay) going = absurd (cc)

  -- Between its rounds, as long as it is not asked to stop, the listener's thread has a channel and a
  -- connection and no failures to its name, or it has neither of the two, however the calls of all rounds
  -- before ended.
  pub Reach-Paired :
      {u : Thread}
      → Reach s env settings asked connect_policy loop_policy uniform new_thread u
      → asked u.session.log ≡ false
      → Paired u
  unfolding new_thread
  Reach-Paired here going = inr (refl, refl)
  Reach-Paired {u} (next fuel {v} r still e) going = going-Paired u (round-Ends fuel v e) going
