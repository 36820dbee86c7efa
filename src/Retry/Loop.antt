-- ===== src/Retry/Loop.antt =====
-- When the retry loops end, and how often they call.
use mathlib.Core.Path.{fun_ext}
use rabbitmq_pika_adapter.Prelude.{
  ℕ, zero, suc, ◌+◌, ◌≤◌, ◌<◌, ◌≡◌, refl, ap, ◌≢◌, Bool, false, Option, none, some, arith,
  Bool-cases, Option-cases, inl, inr,
}
use rabbitmq_pika_adapter.Outcome.{Exception, Outcome, ok, raised}
use rabbitmq_pika_adapter.Retry.Floats.{Seconds}
use rabbitmq_pika_adapter.Retry.{
  RetryPolicy, gives_up, delay_for_attempt, asked_to_stop, Continue, settle, sync_loop, sync_retry,
  async_loop, async_retry,
}

module _ (s : Seconds) {W A : Type 0} (p : RetryPolicy s) (uniform : ℕ → s.T → s.T → s.T)
    (sleep : s.T → W → W) (func : W → Outcome A × W) where
  async_loop-eq-sync_loop :
      (fuel attempt : ℕ) (last : Option Exception) (w : W)
      → async_loop s p uniform sleep func fuel attempt w
        ≡ sync_loop s p uniform sleep func none fuel attempt last w
  unfolding async_loop sync_loop
  async_loop-eq-sync_loop zero attempt last w = refl
  async_loop-eq-sync_loop (suc fuel) attempt last w =
      let (r, w1) = func w in
      ap (settle s p uniform sleep func attempt r w1) (
        fun_ext λ e.
          fun_ext
            λ d. fun_ext λ w'. async_loop-eq-sync_loop fuel (attempt + 1) (some e) (sleep d w'))

  -- `async_retry` does what `sync_retry` does with no way to stop it.
  pub async_retry-eq-sync_retry :
      (fuel : ℕ) (w : W)
      → async_retry s p uniform sleep func fuel w ≡ sync_retry s p uniform sleep func none fuel w
  unfolding async_retry sync_retry
  async_retry-eq-sync_retry fuel w = async_loop-eq-sync_loop fuel 1 none w

  lt_of_more :
      (attempt : ℕ) {n : ℕ} → p.max_attempts ≡ some n → gives_up s p attempt ≡ false → attempt < n
  unfolding gives_up
  lt_of_more attempt bounded more = ground arith

  pub settle-ne-none :
      (attempt : ℕ) (r : Outcome A) (w : W) (k : Continue s p uniform sleep func)
      → (gives_up s p attempt ≡ false
          → (e : Exception) (d : s.T)
          → delay_for_attempt s p (attempt + 1) (uniform attempt) ≡ some d
          → k e d w ≢ none)
      → settle s p uniform sleep func attempt r w k ≢ none
  unfolding settle
  settle-ne-none attempt (ok a) w k h e = cc
  settle-ne-none attempt (raised x) w k h e = elim (Bool-cases (gives_up s p attempt)) [
    | inl last ↦ ground arith
    | inr more ↦ elim (Option-cases (delay_for_attempt s p (attempt + 1) (uniform attempt))) [
      | inl overflow ↦ ground arith
      | inr (d, delay) ↦ h more x d delay (ground arith)
    ]
  ]

  module _ (stop : Option (W → Bool)) where
    -- With `max_attempts` set the loop ends within that many rounds.
    sync_loop-ne-none :
        (n fuel attempt : ℕ) (last : Option Exception) (w : W)
        → p.max_attempts ≡ some n
        → 0 < fuel
        → n < attempt + fuel
        → sync_loop s p uniform sleep func stop fuel attempt last w ≢ none
    unfolding sync_loop
    sync_loop-ne-none n zero attempt last w bounded h k = absurd (omega arith)
    sync_loop-ne-none n (suc fuel) attempt last w bounded h k =
        elim (Bool-cases (asked_to_stop s stop w)) [
          | inl stopped ↦ rw stopped (λ e. cc)
          | inr going ↦ rw going (
              let (r, w1) = func w in
              settle-ne-none attempt r w1 _ λ more e d delay.
                sync_loop-ne-none n fuel (attempt + 1) (some e) (sleep d w1) bounded
                  (omega (arith, lt_of_more attempt bounded more)) (omega arith))
        ]

    -- With `max_attempts` set, `sync_retry` ends: that many rounds are fuel enough.
    pub sync_retry-ne-none :
        (n fuel : ℕ) (w : W)
        → p.max_attempts ≡ some n
        → 0 < fuel
        → n ≤ fuel
        → sync_retry s p uniform sleep func stop fuel w ≢ none
    unfolding sync_retry
    sync_retry-ne-none n fuel w bounded h k =
        sync_loop-ne-none n fuel 1 none w bounded h (omega arith)
