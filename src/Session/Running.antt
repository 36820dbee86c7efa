-- ===== src/Session/Running.antt =====
-- The listener's thread ends when it is asked to.
use native.Mathlib.Decide.{dec_lt}
use rabbitmq_pika_adapter.Prelude.{
  ℕ, zero, suc, ◌+◌, ◌≤◌, ◌<◌, ◌≡◌, ◌≢◌, refl, Bool, true, false, Option, none, some, arith, length,
  ◌⊎◌, inl, inr, Bool-cases, if_ind, along_some,
}
use rabbitmq_pika_adapter.Outcome.{Exception, overflow_error, Outcome, ok, raised}
use rabbitmq_pika_adapter.Retry.Floats.{Seconds}
use rabbitmq_pika_adapter.Retry.{RetryPolicy}
use rabbitmq_pika_adapter.Retry.Rule.{Rule, sync_retry_post}
use rabbitmq_pika_adapter.Retry.Stopping.{sync_retry-stops}
use rabbitmq_pika_adapter.Session.{connect, connection_usable, Log, Env, Settings, Session}
use rabbitmq_pika_adapter.Session.Loop.{
  Thread, connect_once, create_connection, connect_if_needed, serve, then_serve, round, after_round,
  run,
}
use rabbitmq_pika_adapter.Session.Growth.{Longer, perform-further}
use rabbitmq_pika_adapter.Session.Advancing.{Advances, longer_then, serve-Advances}
use rabbitmq_pika_adapter.Session.Reconnecting.{serving, backing_off, stopping, lost}
use rabbitmq_pika_adapter.Session.Rounds.{Ends}
use rabbitmq_pika_adapter.Session.Pairing.{round-Ends}

module _ (s : Seconds) (env : Env) (settings : Settings) (asked : Log → Bool)
    (connect_policy loop_policy : RetryPolicy s) (uniform : ℕ → s.T → s.T → s.T) where
  abbrev connects : Session → Outcome (Unit {0}) × Session
  connects = connect_once s env settings asked connect_policy loop_policy uniform

  connects-further : (v : Session) → length v.log < length (connects v).1.log
  unfolding connect_once
  connects-further v = ground (arith, perform-further env settings connect v)

  create_connection-Longer :
      (fuel : ℕ) (v : Session) {res : Outcome (Unit {0}) × Session}
      → create_connection s env settings asked connect_policy loop_policy uniform fuel v ≡ some res
      → Longer v res.1
  unfolding create_connection
  create_connection-Longer fuel v e =
      sync_retry_post s connect_policy uniform (λ d w. w) connects (some (λ w. asked w.log)) rule
        fuel v (omega arith) e
    where
      rule :
          Rule s connect_policy uniform
            (λ d w. w)
            connects
            (some (λ w. asked w.log))
            (λ a u. Longer v u)
            (λ res. Longer v res.1)
      rule = record {
        stopped = λ a last u i h. i;
        called = λ a u i. omega (arith, i, connects-further u);
        overflowed = λ a u i. omega (arith, i, connects-further u);
        again = λ a u d i more. omega (arith, i, connects-further u);
      }

  then_serve-Advances :
      (w : Thread) (o : Option (Outcome (Unit {0}) × Session)) {res : Outcome (Unit {0}) × Thread}
      → ((q : Outcome (Unit {0}) × Session) → o ≡ some q → Longer w.session q.1)
      → then_serve s env settings asked connect_policy loop_policy uniform w o ≡ some res
      → Advances s env settings asked connect_policy loop_policy uniform w res.1
  then_serve-Advances w none p e = absurd (cc)
  then_serve-Advances w (some (r, v)) p e =
      let w1 : Thread = record w { session = v } in
      along_some
        (λ (res : Outcome (Unit {0}) × Thread).
          Advances s env settings asked connect_policy loop_policy uniform w res.1)
        e
        (longer_then s env settings asked connect_policy loop_policy uniform w w1
          (serve s env settings asked connect_policy loop_policy uniform r w1).1 (p (r, v) refl)
          (serve-Advances s env settings asked connect_policy loop_policy uniform r w1))

  connect_if_needed-Longer :
      (fuel : ℕ) (v : Session) (q : Outcome (Unit {0}) × Session)
      → connect_if_needed s env settings asked connect_policy loop_policy uniform fuel v ≡ some q
      → Longer v q.1
  unfolding connect_if_needed
  connect_if_needed-Longer fuel v q e = elim (Bool-cases (connection_usable env settings v)) [
    | inl usable ↦
        along_some (λ (q : Outcome (Unit {0}) × Session). Longer v q.1) (rw usable at e)
          (omega arith)
    | inr closed ↦ create_connection-Longer fuel v (rw closed at e)
  ]

  round-Advances :
      (fuel : ℕ) (w : Thread) {res : Outcome (Unit {0}) × Thread}
      → round s env settings asked connect_policy loop_policy uniform fuel w ≡ some res
      → Advances s env settings asked connect_policy loop_policy uniform w res.1
  unfolding round
  round-Advances fuel w e =
      then_serve-Advances w
        (connect_if_needed s env settings asked connect_policy loop_policy uniform fuel w.session)
        (connect_if_needed-Longer fuel w.session) e

  -- The thread returned, since it was asked to stop, or it is gone since a delay overflowed.
  abbrev pub HasEnded : Outcome (Unit {0}) × Thread → Type 0
  HasEnded res =
      ((res.0 ≡ ok tt) × (asked res.1.session.log ≡ true)) ⊎ (res.0 ≡ raised overflow_error)

  module _ (n : ℕ) (stopped : (log : Log) → n ≤ length log → asked log ≡ true) where
    connect_if_needed-stops :
        (v : Session)
        → connect_if_needed s env settings asked connect_policy loop_policy uniform (suc n) v ≢ none
    unfolding connect_if_needed create_connection
    connect_if_needed-stops v = elim (Bool-cases (connection_usable env settings v)) [
      | inl usable ↦ rw usable (λ e. cc)
      | inr closed ↦ rw closed (
          sync_retry-stops s connect_policy uniform (λ d w. w) connects (λ w. asked w.log)
            (λ w. length w.log) n connects-further (λ d w. omega arith) (λ w h. stopped w.log h) v)
    ]

    then_serve-ne-none :
        (w : Thread) (o : Option (Outcome (Unit {0}) × Session))
        → o ≢ none
        → then_serve s env settings asked connect_policy loop_policy uniform w o ≢ none
    then_serve-ne-none w none h = absurd (h refl)
    then_serve-ne-none w (some q) h = λ e. cc

    round-ne-none :
        (w : Thread)
        → round s env settings asked connect_policy loop_policy uniform (suc n) w ≢ none
    unfolding round
    round-ne-none w =
        then_serve-ne-none w
          (connect_if_needed s env settings asked connect_policy loop_policy uniform (suc n)
            w.session)
          (connect_if_needed-stops w.session)

    abbrev runs : ℕ → Thread → Option (Outcome (Unit {0}) × Thread)
    runs k w = run s env settings asked connect_policy loop_policy uniform k (suc n) w

    -- `k` rounds are enough from here.
    abbrev Enough : ℕ → Thread → Type 0
    Enough k w = (0 < k) × ((asked w.session.log ≡ true) ⊎ (n < length w.session.log + k))

    not_yet : (w : Thread) → asked w.session.log ≡ false → length w.session.log < n
    not_yet w going = elim (dec_lt (length w.session.log) n) [
      | yes early ↦ early
      | no late ↦ let p = stopped w.session.log (omega arith) in absurd (cc)
    ]

    gone :
        (u : Thread) {e : Exception}
        → Ends s env settings asked connect_policy loop_policy uniform (raised e, u)
        → HasEnded (raised e, u)
    gone u (serving p channel connection none_failed) = cc
    gone u (backing_off d p closed delay) = cc
    gone u (stopping p h) = cc
    gone u (lost p closed delay) = inr p

    -- What is to be shown, and how one round leads to the next.
    abbrev Ending : Option (Outcome (Unit {0}) × Thread) → Type 0
    Ending o = (res : Outcome (Unit {0}) × Thread) × (o ≡ some res) × HasEnded res

    next-Enough :
        (k : ℕ) (w u : Thread)
        → asked w.session.log ≡ false
        → Enough (suc k) w
        → Advances s env settings asked connect_policy loop_policy uniform w u
        → Enough k u
    next-Enough k w u going (some_fuel, inl stop) advances = absurd (cc)
    next-Enough k w u going (some_fuel, inr enough) advances =
        (omega (arith, enough, not_yet w going), further advances)
      where
        further :
            Advances s env settings asked connect_policy loop_policy uniform w u
            → (asked u.session.log ≡ true) ⊎ (n < length u.session.log + k)
        further (inl stop) = inl stop
        further (inr p) = inr (omega (arith, enough, p))

    after_round-Ending :
        (k : ℕ) (w : Thread) (o : Option (Outcome (Unit {0}) × Thread))
        → round s env settings asked connect_policy loop_policy uniform (suc n) w ≡ o
        → ((u : Thread)
            → Advances s env settings asked connect_policy loop_policy uniform w u
            → Ending (runs k u))
        → Ending
            (after_round s env settings asked connect_policy loop_policy uniform (λ u. runs k u) o)
    after_round-Ending k w none e continue = absurd (round-ne-none w e)
    after_round-Ending k w (some (raised x, u)) e continue = (
      (raised x, u),
      refl,
      gone u (round-Ends s env settings asked connect_policy loop_policy uniform (suc n) w e),
    )
    after_round-Ending k w (some (ok a, u)) e continue = continue u (round-Advances (suc n) w e)

    run_from : (k : ℕ) (w : Thread) → Enough k w → Ending (runs k w)
    unfolding run
    run_from zero w (some_fuel, enough) = absurd (omega arith)
    run_from (suc k) w enough =
        if_ind Ending (asked w.session.log) (λ stop. ((ok tt, w), refl, inl (refl, stop)))
          (λ going.
            after_round-Ending k w
              (round s env settings asked connect_policy loop_policy uniform (suc n) w) refl
              (λ u advances. run_from k u (next-Enough k w u going enough advances)))

    -- If the thread reads that it is asked to stop once `n` calls and counts have been made, then its `run` ends, after
    -- at most `n + 1` rounds with at most `n + 1` attempts to connect each, whatever the policies, also
    -- those without a bound, and however the calls end: it returns, asked to stop, or a delay overflowed.
    pub run_ends : (w : Thread) → Ending (runs (suc n) w)
    run_ends w = run_from (suc n) w (omega arith, inr (omega arith))
