-- ===== src/Retry/Growth.antt =====
-- Without jitter, delays grow up to the cap.
use rabbitmq_pika_adapter.Prelude.{
  ℕ, zero, suc, ◌-◌, ◌≡◌, refl, sym, ◌∙◌, false, Option, none, some, arith, Bool-cases, inl, inr,
}
use rabbitmq_pika_adapter.Retry.Floats.{Seconds, Laws, le, min_of}
use rabbitmq_pika_adapter.Retry.{RetryPolicy, backoff, delay_for_attempt, jittered, capped}
use rabbitmq_pika_adapter.Retry.Delay.{IsSound, backoff-Within}

module _ (s : Seconds) (laws : Laws s) where
  min_of_mono : (m b c : s.T) → le s b c → le s (min_of s m b) (min_of s m c)
  min_of_mono m b c h = elim (Bool-cases (s.ltb b m)) [
    | inl b_small ↦ elim (Bool-cases (s.ltb c m)) [
      | inl c_small ↦ rw (b_small, c_small) h
      | inr c_large ↦ rw (b_small, c_large) (laws.le_of_lt b m b_small)
    ]
    | inr b_large ↦
        let c_large : s.ltb c m ≡ false = laws.le_trans m b c b_large h in
        rw (b_large, c_large) (laws.le_refl m)
  ]

  capped_mono :
      (p : RetryPolicy s) (x y : Option s.T) {d d' : s.T}
      → le s s.nought p.base_delay
      → ((q r : s.T) → x ≡ some q → y ≡ some r → le s q r)
      → capped s p x ≡ some d
      → capped s p y ≡ some d'
      → le s d d'
  capped_mono p none y base grows e e' = cc
  capped_mono p (some q) none base grows e e' = cc
  capped_mono p (some q) (some r) {d} {d'} base grows e e' =
      let same : min_of s p.max_delay (s.mul p.base_delay q) ≡ d = cc in
      let same' : min_of s p.max_delay (s.mul p.base_delay r) ≡ d' = cc in
      rw (← same, ← same')
        (min_of_mono p.max_delay _ _ (laws.mul_mono p.base_delay q r base (grows q r refl refl)))

  backoff_later :
      (p : RetryPolicy s) (n : ℕ) → backoff s p (suc (suc n)) ≡ capped s p (s.pow p.multiplier n)
  unfolding backoff
  backoff_later p n = let exponent : suc (suc n) - 2 ≡ n = omega arith in rw exponent (ground arith)

  backoff_mono :
      (p : RetryPolicy s) (attempt : ℕ) {d d' : s.T}
      → IsSound s laws p
      → le s s.one p.multiplier
      → backoff s p attempt ≡ some d
      → backoff s p (suc attempt) ≡ some d'
      → le s d d'
  unfolding backoff
  backoff_mono p zero {d} {d'} sound grows e e' =
      let same : s.nought ≡ d = cc in rw (← same) (backoff-Within s laws p 1 sound e').0
  backoff_mono p (suc zero) {d} {d'} sound grows e e' =
      let same : s.nought ≡ d = cc in rw (← same) (backoff-Within s laws p 2 sound e').0
  backoff_mono p (suc (suc n)) {d} {d'} sound grows e e' =
      capped_mono p (s.pow p.multiplier n) (s.pow p.multiplier (suc n)) sound.base_nonneg
        (λ q r. laws.pow_mono p.multiplier q r n grows) (sym (backoff_later p n) ∙ e)
        (sym (backoff_later p (suc n)) ∙ e')

  jittered-still :
      (p : RetryPolicy s) (b : Option s.T) (uniform : s.T → s.T → s.T) {d : s.T}
      → s.ltb s.nought p.jitter ≡ false
      → jittered s p uniform b ≡ some d
      → b ≡ some d
  jittered-still p none uniform still e = cc
  jittered-still p (some c) uniform still e = ground arith

  -- For a sound policy without jitter and with a multiplier of at least one, given the laws of float
  -- arithmetic, the delay after one more attempt is not below the one before, where neither overflows.
  pub delay_for_attempt_mono :
      (p : RetryPolicy s) (attempt : ℕ) (uniform : s.T → s.T → s.T) {d d' : s.T}
      → IsSound s laws p
      → le s s.one p.multiplier
      → s.ltb s.nought p.jitter ≡ false
      → delay_for_attempt s p attempt uniform ≡ some d
      → delay_for_attempt s p (suc attempt) uniform ≡ some d'
      → le s d d'
  unfolding delay_for_attempt
  delay_for_attempt_mono p attempt uniform sound grows still e e' =
      backoff_mono p attempt sound grows (jittered-still p _ uniform still e)
        (jittered-still p _ uniform still e')
