-- ===== src/Session/Rounds.antt =====
-- How a round of the listener's thread ends.
use rabbitmq_pika_adapter.Prelude.{
  ℕ, suc, ◌≡◌, refl, sym, ◌≢◌, ap, ◌∙◌, Bool, true, false, Option, none, some, if◌then◌else◌, arith,
  Bool-cases, inl, inr,
}
use rabbitmq_pika_adapter.Outcome.{Outcome, ok, raised, ◌>>◌, pure, try_except, handle}
use mathlib.Core.Path.{subst}
use rabbitmq_pika_adapter.Outcome.Returns.{then-returns, returns_too}
use rabbitmq_pika_adapter.Retry.Floats.{Seconds}
use rabbitmq_pika_adapter.Retry.{RetryPolicy}
use rabbitmq_pika_adapter.Retry.Ending.{EndsWithin, sync_retry_ends}
use rabbitmq_pika_adapter.Session.{
  connection_usable, process_data_events, Log, Env, Settings, Session, perform,
  setup_channel_and_consumer, channel_usable,
}
use rabbitmq_pika_adapter.Session.Flags.{perform-SameFlags, BothOpen, setup_ok}
use rabbitmq_pika_adapter.Session.Loop.{
  Body, no_failures, as_action, Thread, on_session, reconnect, unless_asked, process,
  assert_connection, set_up_if_needed, serve, then_serve, connect_if_needed, connect_once,
  create_connection, round,
}
use rabbitmq_pika_adapter.Session.Reconnecting.{Ending, serving, unless_asked-Ending}

module _ (s : Seconds) (env : Env) (settings : Settings) (asked : Log → Bool)
    (connect_policy loop_policy : RetryPolicy s) (uniform : ℕ → s.T → s.T → s.T) where
  abbrev pub Ends : Outcome (Unit {0}) × Thread → Type 0
  Ends = Ending s env settings asked connect_policy loop_policy uniform

  abbrev no_failures_then : Outcome (Unit {0}) → Thread → Outcome (Unit {0}) × Thread
  no_failures_then r w =
      try_except
        (as_action s env settings asked connect_policy loop_policy uniform r
          >> no_failures s env settings asked connect_policy loop_policy uniform)
        (λ e.
          unless_asked s env settings asked connect_policy loop_policy uniform
            (reconnect s env settings asked connect_policy loop_policy uniform))
        w

  processed-Ending :
      (r : Outcome (Unit {0})) (w : Thread)
      → BothOpen env settings w.session
      → Ends (no_failures_then r w)
  processed-Ending (ok u) w (channel, connection) = serving refl channel connection refl
  processed-Ending (raised e) w opened =
      unless_asked-Ending s env settings asked connect_policy loop_policy uniform w

  process-Ending :
      (w : Thread)
      → BothOpen env settings w.session
      → Ends (process s env settings asked connect_policy loop_policy uniform w)
  unfolding process
  process-Ending w (channel, connection) =
      let (r, v) = perform env settings process_data_events w.session in
      let same = perform-SameFlags env settings process_data_events w.session in
      processed-Ending r (record w { session = v })
        (same.same_channel ∙ channel, same.same_connection ∙ connection)

  handled-Ending :
      (r : Outcome (Unit {0})) (w : Thread)
      → (r ≡ ok tt → Ends (ok tt, w))
      → Ends (
          handle r
            (λ e.
              unless_asked s env settings asked connect_policy loop_policy uniform
                (reconnect s env settings asked connect_policy loop_policy uniform))
            w)
  handled-Ending (ok u) w h = h refl
  handled-Ending (raised e) w h =
      unless_asked-Ending s env settings asked connect_policy loop_policy uniform w

  set_up_if_needed_ok :
      (w : Thread)
      → w.session.has_connection ≡ true
      → let r = set_up_if_needed s env settings asked connect_policy loop_policy uniform w in
        r.0 ≡ ok tt → BothOpen env settings r.1.session
  unfolding set_up_if_needed
  set_up_if_needed_ok w there h =
      needed (channel_usable env settings w.session) w (λ usable. (ground arith, there)) h
    where
      needed :
          (b : Bool) (w : Thread)
          → (b ≡ true → BothOpen env settings w.session)
          → let r =
              if b
              then pure tt w
              else on_session s env settings asked connect_policy loop_policy uniform
                  (setup_channel_and_consumer env settings)
                  w in
            r.0 ≡ ok tt → BothOpen env settings r.1.session
      needed true w opened h = opened refl
      needed false w opened h = setup_ok env settings w.session h

  asserts : Body s env settings asked connect_policy loop_policy uniform
  asserts = assert_connection s env settings asked connect_policy loop_policy uniform

  asserts_ok :
      (w : Thread) → (asserts w).0 ≡ ok tt → ((asserts w).1 ≡ w) × (w.session.has_connection ≡ true)
  unfolding asserts assert_connection
  asserts_ok w h = ground arith

  abbrev sets_up : Body s env settings asked connect_policy loop_policy uniform
  sets_up = set_up_if_needed s env settings asked connect_policy loop_policy uniform

  abbrev processes : Body s env settings asked connect_policy loop_policy uniform
  processes = process s env settings asked connect_policy loop_policy uniform

  abbrev body : Outcome (Unit {0}) → Body s env settings asked connect_policy loop_policy uniform
  body r =
      as_action s env settings asked connect_policy loop_policy uniform r
      >> (asserts >> (sets_up >> processes))

  body-Ending : (r : Outcome (Unit {0})) (w : Thread) → (body r w).0 ≡ ok tt → Ends (body r w)
  body-Ending r w fine =
      let rest1 =
        (then-returns (as_action s env settings asked connect_policy loop_policy uniform r)
          (asserts >> (sets_up >> processes)) w fine).1 in
      let ((a, asserted), rest2) =
        then-returns asserts (sets_up >> processes) w (returns_too rest1 fine) in
      let (same, there) = asserts_ok w asserted in
      let w2 = (asserts w).1 in
      let e2 = rest1 ∙ rest2 in
      let ((b, set), rest3) = then-returns sets_up processes w2 (returns_too e2 fine) in
      let opened =
        set_up_if_needed_ok w2 (ap (λ (v : Thread). v.session.has_connection) same ∙ there) set in
      subst Ends (sym (e2 ∙ rest3)) (process-Ending (sets_up w2).1 opened)

  pub serve-Ending :
      (r : Outcome (Unit {0})) (w : Thread)
      → Ends (serve s env settings asked connect_policy loop_policy uniform r w)
  unfolding serve asserts
  serve-Ending r w = handled-Ending (body r w).0 (body r w).1 (λ fine.
      subst (λ (o : Outcome (Unit {0})). Ends (o, (body r w).1)) fine (body-Ending r w fine))

  ended_with :
      (w : Thread) (o : Option (Outcome (Unit {0}) × Session))
      → o ≢ none
      → (res : Outcome (Unit {0}) × Thread) × (then_serve s env settings asked connect_policy
            loop_policy uniform w o
          ≡ some res)
        × Ends res
  ended_with w none some_result = absurd (some_result refl)
  ended_with w (some (r, v)) some_result =
      let w1 = record w { session = v } in
      (serve s env settings asked connect_policy loop_policy uniform r w1, refl, serve-Ending r w1)

  connect_if_needed-ne-none :
      (n : ℕ) (v : Session)
      → EndsWithin s connect_policy n
      → connect_if_needed s env settings asked connect_policy loop_policy uniform (suc n) v ≢ none
  unfolding connect_if_needed create_connection
  connect_if_needed-ne-none n v bounded = elim (Bool-cases (connection_usable env settings v)) [
    | inl usable ↦ rw usable (λ e. cc)
    | inr closed ↦ rw closed (
        sync_retry_ends s connect_policy uniform (λ d w. w)
          (connect_once s env settings asked connect_policy loop_policy uniform)
          (some (λ w. asked w.log)) n v bounded)
  ]

  -- With fuel for the connection's retries, one more than the rounds that the policy allows, a round ends,
  -- however its calls do, and leaves one of these: a connection and a channel with no failures, which are attributes
  -- that are set, as the broker may have closed them since; neither of them, after the delay of the policy; a thread that is asked to stop; or, if that delay overflows, no
  -- thread.
  pub round-Ending :
      (n : ℕ) (w : Thread)
      → EndsWithin s connect_policy n
      → (res : Outcome (Unit {0}) × Thread) × (round s env settings asked connect_policy loop_policy
            uniform
            (suc n)
            w
          ≡ some res)
        × Ends res
  unfolding round
  round-Ending n w bounded =
      ended_with w
        (connect_if_needed s env settings asked connect_policy loop_policy uniform (suc n)
          w.session)
        (connect_if_needed-ne-none n w.session bounded)
