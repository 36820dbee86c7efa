-- ===== src/Session/Reconnecting.antt =====
-- How a round of the listener's thread may end, and that giving up the connection ends so.
use rabbitmq_pika_adapter.Prelude.{
  ℕ, suc, ◌+◌, ◌≡◌, refl, Bool, true, false, Option, none, some, ◌∷◌, arith, if_ind,
}
use rabbitmq_pika_adapter.Outcome.{overflow_error, Outcome, ok, raised}
use rabbitmq_pika_adapter.Retry.Floats.{Seconds}
use rabbitmq_pika_adapter.Retry.{RetryPolicy, delay_for_attempt}
use rabbitmq_pika_adapter.Stats.{reconnect_attempts}
use rabbitmq_pika_adapter.Session.{
  counted, close_channel, Log, Env, Settings, Session, call, attempt, when_channel,
}
use rabbitmq_pika_adapter.Session.Flags.{attempt_ok}
use rabbitmq_pika_adapter.Session.Loop.{
  Thread, close_counted, back_off, after_delay, reconnect, unless_asked,
}

module _ (s : Seconds) (env : Env) (settings : Settings) (asked : Log → Bool)
    (connect_policy loop_policy : RetryPolicy s) (uniform : ℕ → s.T → s.T → s.T) where
  -- The delay after the last failure.
  abbrev pub next_delay : Thread → Option s.T
  next_delay w = delay_for_attempt s loop_policy (w.failures + 1) (uniform w.failures)

  abbrev pub BothClosed : Session → Type 0
  BothClosed v = (v.has_channel ≡ false) × (v.has_connection ≡ false)

  -- How a round ends: serving, backing off, asked to stop, or lost.
  pub data Ending (res : Outcome (Unit {0}) × Thread) : Type 0 where
    serving :
        res.0 ≡ ok tt
        → res.1.session.has_channel ≡ true
        → res.1.session.has_connection ≡ true
        → res.1.failures ≡ 0
        → Ending res
    backing_off :
        (d : s.T)
        → res.0 ≡ ok tt
        → BothClosed res.1.session
        → next_delay res.1 ≡ some d
        → Ending res
    stopping : res.0 ≡ ok tt → asked res.1.session.log ≡ true → Ending res
    lost :
        res.0 ≡ raised overflow_error
        → BothClosed res.1.session
        → next_delay res.1 ≡ none
        → Ending res

  after_delay-Ending :
      (o : Option s.T) (w : Thread)
      → next_delay w ≡ o
      → BothClosed w.session
      → Ending (after_delay s env settings asked connect_policy loop_policy uniform o w)
  after_delay-Ending none w e closed = lost refl closed e
  after_delay-Ending (some d) w e closed = backing_off d refl closed e

  pub close_channel_ok :
      (v : Session) → (when_channel env settings (attempt env settings close_channel) v).0 ≡ ok tt
  close_channel_ok v = ground (arith, attempt_ok env settings close_channel v)

  pub close_counted_ok :
      (v : Session)
      → (close_counted s env settings asked connect_policy loop_policy uniform v).0 ≡ ok tt
  unfolding close_counted call
  close_counted_ok v = ground arith

  reconnect-Ending :
      (w : Thread) → Ending (reconnect s env settings asked connect_policy loop_policy uniform w)
  unfolding reconnect back_off
  reconnect-Ending w =
      let closes = when_channel env settings (attempt env settings close_channel) in
      let v1 = (closes w.session).1 in
      let v2 = (close_counted s env settings asked connect_policy loop_policy uniform v1).1 in
      let v3 = record v2 {
        has_channel = false;
        has_connection = false;
        log = counted reconnect_attempts ∷ v2.log;
      } in
      let w3 : Thread = record { session = v3; failures = suc w.failures } in
      rw (close_channel_ok w.session, close_counted_ok v1)
        (after_delay-Ending (next_delay w3) w3 refl (refl, refl))

  pub unless_asked-Ending :
      (w : Thread)
      → Ending (
          unless_asked s env settings asked connect_policy loop_policy uniform
            (reconnect s env settings asked connect_policy loop_policy uniform)
            w)
  unless_asked-Ending w =
      if_ind Ending (asked w.session.log) (λ h. stopping refl h) (λ h. reconnect-Ending w)
