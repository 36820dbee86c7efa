-- ===== src/Retry/Rule.antt =====
-- A proof rule for `sync_retry`, and what follows by it: how often `func` is called, and where the
-- outcome comes from.
use Prim.Native.Nat.{max}
use rabbitmq_pika_adapter.Prelude.{
  ℕ, zero, suc, ◌+◌, ◌≤◌, ◌<◌, ◌≡◌, refl, Bool, true, false, Option, none, some, arith, Bool-cases,
  Option-cases, inl, inr, along_some,
}
use rabbitmq_pika_adapter.Outcome.{Exception, overflow_error, Outcome, ok, raised}
use rabbitmq_pika_adapter.Retry.Floats.{Seconds}
use rabbitmq_pika_adapter.Retry.Loop.{sync_retry-ne-none}
use rabbitmq_pika_adapter.Retry.{
  RetryPolicy, gives_up, delay_for_attempt, asked_to_stop, last_error, Continue, settle, sync_loop,
  sync_retry,
}

module _ (s : Seconds) {W A : Type 0} (p : RetryPolicy s) (uniform : ℕ → s.T → s.T → s.T)
    (sleep : s.T → W → W) (func : W → Outcome A × W) (stop : Option (W → Bool)) where
  -- What to show of an invariant at the start of each round and of a postcondition.
  pub record Rule (I : ℕ → W → Type 0) (Q : Outcome A × W → Type 0) : Type 0 where
    pub stopped :
        (attempt : ℕ) (last : Option Exception) (w : W)
        → I attempt w
        → asked_to_stop s stop w ≡ true
        → Q (raised (last_error s last), w)
    pub called : (attempt : ℕ) (w : W) → I attempt w → Q (func w)
    pub overflowed : (attempt : ℕ) (w : W) → I attempt w → Q (raised overflow_error, (func w).1)
    pub again :
        (attempt : ℕ) (w : W) (d : s.T)
        → I attempt w
        → gives_up s p attempt ≡ false
        → I (attempt + 1) (sleep d (func w).1)

  settle_post :
      (Q : Outcome A × W → Type 0) (attempt : ℕ) (r : Outcome A) (w : W)
      (k : Continue s p uniform sleep func) {res : Outcome A × W}
      → Q (r, w)
      → Q (raised overflow_error, w)
      → ((e : Exception) (d : s.T) → gives_up s p attempt ≡ false → k e d w ≡ some res → Q res)
      → settle s p uniform sleep func attempt r w k ≡ some res
      → Q res
  unfolding settle
  settle_post Q attempt (ok a) w k here over next e = along_some Q e here
  settle_post Q attempt (raised x) w k here over next e = elim (Bool-cases (gives_up s p attempt)) [
    | inl last ↦ along_some Q (rw last at e) here
    | inr more ↦ elim (Option-cases (delay_for_attempt s p (attempt + 1) (uniform attempt))) [
      | inl overflow ↦ along_some Q (rw (more, overflow) at e) over
      | inr (d, delay) ↦ next x d more (rw (more, delay) at e)
    ]
  ]

  module _ {I : ℕ → W → Type 0} {Q : Outcome A × W → Type 0} (rule : Rule I Q) where
    sync_loop_post :
        (fuel attempt : ℕ) (last : Option Exception) (w : W) {res : Outcome A × W}
        → I attempt w
        → sync_loop s p uniform sleep func stop fuel attempt last w ≡ some res
        → Q res
    unfolding sync_loop
    sync_loop_post zero attempt last w i e = cc
    sync_loop_post (suc fuel) attempt last w i e = elim (Bool-cases (asked_to_stop s stop w)) [
      | inl h ↦ along_some Q (rw h at e) (rule.stopped attempt last w i h)
      | inr h ↦
          settle_post Q attempt (func w).0 (func w).1 _ (rule.called attempt w i)
            (rule.overflowed attempt w i)
            (λ x d more.
              sync_loop_post fuel (attempt + 1) (some x) (sleep d (func w).1)
                (rule.again attempt w d i more))
            (rw h at e)
    ]

    pub sync_retry_post :
        (fuel : ℕ) (w : W) {res : Outcome A × W}
        → I 1 w
        → sync_retry s p uniform sleep func stop fuel w ≡ some res
        → Q res
    unfolding sync_retry
    sync_retry_post fuel w i e = sync_loop_post fuel 1 none w i e

  lt_of_more :
      (attempt : ℕ) {n : ℕ} → p.max_attempts ≡ some n → gives_up s p attempt ≡ false → attempt < n
  unfolding gives_up
  lt_of_more attempt bounded more = ground arith

  -- `count` is any record of the number of calls.
  calls_le :
      (count : W → ℕ) (n fuel : ℕ) (w : W) {res : Outcome A × W}
      → ((v : W) → count (func v).1 ≡ suc (count v))
      → ((d : s.T) (v : W) → count (sleep d v) ≡ count v)
      → p.max_attempts ≡ some n
      → sync_retry s p uniform sleep func stop fuel w ≡ some res
      → count res.1 ≤ count w + max n 1
  calls_le count n fuel w counts rests bounded e = sync_retry_post rule fuel w (omega arith) e
    where
      rule :
          Rule
            (λ a v. (count v + 1 ≡ count w + a) × (a ≤ max n 1))
            (λ res. count res.1 ≤ count w + max n 1)
      rule = record {
        stopped = λ a last v i h. omega arith;
        called = λ a v i. omega (arith, counts v);
        overflowed = λ a v i. omega (arith, counts v);
        again =
            λ a v d i more. omega (arith, counts v, rests d (func v).1, lt_of_more a bounded more);
      }

  -- With `max_attempts` set to `n`, the retry ends and calls `func` at most `n` times, and once if `n` is 0,
  -- whatever `func`, the stop predicate and the delays do. `count` is any record of the number of calls, which
  -- a sleep leaves as it is.
  pub sync_retry-calls_le :
      (count : W → ℕ) (n : ℕ) (w : W)
      → ((v : W) → count (func v).1 ≡ suc (count v))
      → ((d : s.T) (v : W) → count (sleep d v) ≡ count v)
      → p.max_attempts ≡ some n
      → (res : Outcome A × W) × (sync_retry s p uniform sleep func stop (suc n) w ≡ some res)
        × (count res.1 ≤ count w + max n 1)
  sync_retry-calls_le count n w counts rests bounded =
      elim (Option-cases (sync_retry s p uniform sleep func stop (suc n) w)) [
        | inl lacking ↦ absurd (
            sync_retry-ne-none s p uniform sleep func stop n (suc n) w bounded (omega arith)
              (omega arith) lacking)
        | inr (res, e) ↦ (res, e, calls_le count n (suc n) w counts rests bounded e)
      ]

  -- Where the outcome of a retried call comes from.
  pub data Origin (res : Outcome A × W) : Type 0 where
    last_call : (v : W) → func v ≡ res → Origin res
    stopped : asked_to_stop s stop res.1 ≡ true → Origin res
    overflow : (v : W) → (func v).1 ≡ res.1 → res.0 ≡ raised overflow_error → Origin res

  -- The outcome is that of the last call of `func`, unless the stop predicate holds or the delay
  -- overflowed.
  pub sync_retry-Origin :
      (fuel : ℕ) (w : W) {res : Outcome A × W}
      → sync_retry s p uniform sleep func stop fuel w ≡ some res
      → Origin res
  sync_retry-Origin fuel w e = sync_retry_post rule fuel w tt e
    where
      rule : Rule (λ a v. Unit {0}) Origin
      rule = record {
        stopped = λ a last v i h. stopped h;
        called = λ a v i. last_call v refl;
        overflowed = λ a v i. overflow v refl refl;
        again = λ a v d i more. tt;
      }
