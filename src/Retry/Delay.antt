-- ===== src/Retry/Delay.antt =====
-- Bounds of `RetryPolicy.delay_for_attempt`.
use rabbitmq_pika_adapter.Prelude.{
  ℕ, ◌-◌, ◌≡◌, refl, Option, none, some, arith, leb, if◌then◌else◌, Bool-cases, inl, inr,
}
use rabbitmq_pika_adapter.Retry.Floats.{Seconds, Laws, IsUniform, le, min_of, max_of}
use rabbitmq_pika_adapter.Retry.{RetryPolicy, backoff, delay_for_attempt, jittered, capped}

module _ (s : Seconds) (laws : Laws s) where
  min_of-le_left : (a b : s.T) → le s (min_of s a b) a
  min_of-le_left a b = elim (Bool-cases (s.ltb b a)) [
    | inl h ↦ rw h (laws.le_of_lt b a h)
    | inr h ↦ rw h (laws.le_refl a)
  ]

  min_of-nonneg : (a b : s.T) → le s s.nought a → le s s.nought b → le s s.nought (min_of s a b)
  min_of-nonneg a b ha hb = ground arith

  le-max_of_left : (a b : s.T) → le s a (max_of s a b)
  le-max_of_left a b = elim (Bool-cases (s.ltb a b)) [
    | inl h ↦ rw h (laws.le_of_lt a b h)
    | inr h ↦ rw h (laws.le_refl a)
  ]

  max_of-le : (a b c : s.T) → le s a c → le s b c → le s (max_of s a b) c
  max_of-le a b c ha hb = ground arith

  -- A policy whose delays make sense.
  pub record IsSound (p : RetryPolicy s) : Type 0 where
    pub base_nonneg : le s s.nought p.base_delay
    pub max_nonneg : le s s.nought p.max_delay
    pub multiplier_nonneg : le s s.nought p.multiplier

  abbrev pub Within : RetryPolicy s → s.T → Type 0
  Within p d = le s s.nought d × le s d p.max_delay

  capped-Within :
      (p : RetryPolicy s) (power : Option s.T) {d : s.T}
      → IsSound p
      → ((q : s.T) → power ≡ some q → le s s.nought q)
      → capped s p power ≡ some d
      → Within p d
  capped-Within p none sound nonneg e = cc
  capped-Within p (some q) {d} sound nonneg e =
      let product = s.mul p.base_delay q in
      let same : min_of s p.max_delay product ≡ d = cc in
      rw (← same) (
        min_of-nonneg p.max_delay product sound.max_nonneg
            (laws.mul_nonneg p.base_delay q sound.base_nonneg (nonneg q refl)),
        min_of-le_left p.max_delay product,
      )

  pub backoff-Within :
      (p : RetryPolicy s) (attempt : ℕ) {d : s.T}
      → IsSound p
      → backoff s p attempt ≡ some d
      → Within p d
  unfolding backoff
  backoff-Within p attempt {d} sound e = elim (Bool-cases (leb attempt 1)) [
    | inl first ↦
        let same : s.nought ≡ d = ground arith in
        rw (← same) (laws.le_refl s.nought, sound.max_nonneg)
    | inr later ↦
        capped-Within p (s.pow p.multiplier (attempt - 2)) sound
          (λ q. laws.pow_nonneg p.multiplier q (attempt - 2) sound.multiplier_nonneg) (ground arith)
  ]

  -- The largest delay: the jitter is added after the cap.
  abbrev pub ceiling : RetryPolicy s → s.T
  ceiling p = if s.ltb s.nought p.jitter then s.add p.max_delay p.jitter else p.max_delay

  jittered_bounds :
      (p : RetryPolicy s) (b : Option s.T) (uniform : s.T → s.T → s.T) {d : s.T}
      → IsSound p
      → IsUniform s uniform
      → ((c : s.T) → b ≡ some c → Within p c)
      → jittered s p uniform b ≡ some d
      → le s s.nought d × le s d (ceiling p)
  jittered_bounds p none uniform sound fair within e = cc
  jittered_bounds p (some c) uniform {d} sound fair within e =
      elim (Bool-cases (s.ltb s.nought p.jitter)) [
        | inl jitters ↦
            let u = uniform (s.neg p.jitter) p.jitter in
            let same : max_of s s.nought (s.add c u) ≡ d = ground arith in
            let pos_jitter = laws.le_of_lt s.nought p.jitter jitters in
            let in_range = fair (s.neg p.jitter) p.jitter (laws.neg-le p.jitter pos_jitter) in
            rw (jitters, ← same)
              (
                le-max_of_left s.nought (s.add c u),
                max_of-le s.nought (s.add c u) (s.add p.max_delay p.jitter)
                    (laws.add_nonneg p.max_delay p.jitter sound.max_nonneg pos_jitter)
                    (laws.add_mono c p.max_delay u p.jitter (within c refl).1 in_range.1),
              )
        | inr plain ↦ let same : c ≡ d = ground arith in rw (plain, ← same) (within c refl)
      ]

  -- A computed delay is never negative and at most `max_delay` plus the jitter.
  pub delay_for_attempt_bounds :
      (p : RetryPolicy s) (attempt : ℕ) (uniform : s.T → s.T → s.T) {d : s.T}
      → IsSound p
      → IsUniform s uniform
      → delay_for_attempt s p attempt uniform ≡ some d
      → le s s.nought d × le s d (ceiling p)
  unfolding delay_for_attempt
  delay_for_attempt_bounds p attempt uniform sound fair e =
      jittered_bounds p (backoff s p attempt) uniform sound fair
        (λ c. backoff-Within p attempt sound) e
