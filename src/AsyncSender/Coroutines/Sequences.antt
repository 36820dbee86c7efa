-- ===== src/AsyncSender/Coroutines/Sequences.antt =====
-- Sequences, branches and retries of coroutines that nothing interrupts.
use rabbitmq_pika_adapter.Prelude.{
  ℕ, zero, suc, ◌+◌, ◌≡◌, refl, ◌∙◌, Bool, true, false, some, if◌then◌else◌, Bool-cases,
  Option-cases, inl, inr,
}
use rabbitmq_pika_adapter.Outcome.{Outcome, ok, raised, ◌>>◌, and_then}
use rabbitmq_pika_adapter.Retry.Floats.{Seconds}
use rabbitmq_pika_adapter.Retry.{gives_up, delay_for_attempt, async_loop, async_retry}
use rabbitmq_pika_adapter.Retry as Retry
use rabbitmq_pika_adapter.AsyncSender.World.{Env, Settings, Sender, call}
use rabbitmq_pika_adapter.AsyncSender.{
  Do, policy, of_destination, flag, connected, batches, begin, ready, key_of, ended, last_error,
}
use rabbitmq_pika_adapter.AsyncSender as Sequential
use rabbitmq_pika_adapter.AsyncSender.Retrying.{attempts-ne-none}
use rabbitmq_pika_adapter.AsyncSender.Retrying as Retrying
use rabbitmq_pika_adapter.AsyncSender.Coroutines.{
  Coroutine, finished, section, awaiting, then_do, if_ok, ◌then◌, branches, settle, attempts,
  retried, run_alone,
}

module _ {s : Seconds} (env : Env s) (settings : Settings s) where
  abbrev alone : Coroutine → Do env settings
  alone = run_alone env settings

  pub then_do-alone :
      (m : Coroutine) (k : Outcome (Unit {0}) → Coroutine) (w : Sender)
      → alone (then_do m k) w ≡ (let (r, v) = alone m w in alone (k r) v)
  unfolding then_do run_alone
  then_do-alone (finished r) k w = refl
  then_do-alone (section f c) k w = then_do-alone (c w) k (f w)
  then_do-alone (awaiting c d) k w = let (r, v) = call env c w in then_do-alone (d r) k v

  if_ok-alone :
      (r : Outcome (Unit {0})) (n : Coroutine) (w : Sender)
      → alone (if_ok n r) w ≡ and_then r (λ _. alone n) w
  unfolding run_alone
  if_ok-alone (ok u) n w = refl
  if_ok-alone (raised e) n w = refl

  then-alone : (m n : Coroutine) (w : Sender) → alone (m then n) w ≡ (alone m >> alone n) w
  then-alone m n w = then_do-alone m (if_ok n) w ∙ if_ok-alone (alone m w).0 n (alone m w).1

  -- Where the parts do the same, so do the sequences.
  pub then-alone_eq :
      (m n : Coroutine) (p q : Do env settings)
      → ((w : Sender) → alone m w ≡ p w)
      → ((w : Sender) → alone n w ≡ q w)
      → (w : Sender) → alone (m then n) w ≡ (p >> q) w
  then-alone_eq m n p q a b w = then-alone m n w ∙ rw (a w) (rest (p w).0 (p w).1)
    where
      rest :
          (r : Outcome (Unit {0})) (v : Sender)
          → and_then r (λ _. alone n) v ≡ and_then r (λ _. q) v
      rest (ok u) v = b v
      rest (raised e) v = refl

  pub if-alone_eq :
      (b : Sender → Bool) (m n : Coroutine) (p q : Do env settings)
      → ((w : Sender) → alone m w ≡ p w)
      → ((w : Sender) → alone n w ≡ q w)
      → (w : Sender) → alone (branches b m n) w ≡ (if b w then p w else q w)
  unfolding run_alone
  if-alone_eq b m n p q x y w = pick (b w)
    where
      pick : (c : Bool) → alone (if c then m else n) w ≡ (if c then p w else q w)
      pick true = x w
      pick false = y w

  abbrev no_sleep : s.T → Sender → Sender
  no_sleep d v = v

  -- While the fuel lasts, the attempts are those of `async_retry`.
  attempts-alone :
      (m : Coroutine) (p : Do env settings)
      → ((w : Sender) → alone m w ≡ p w)
      → (fuel attempt : ℕ) (w : Sender) → {res : Outcome (Unit {0}) × Sender}
      → async_loop s (policy env settings) env.uniform no_sleep p fuel attempt w ≡ some res
      → alone (attempts env settings fuel attempt m) w ≡ res
  unfolding attempts async_loop Retry.settle run_alone
  attempts-alone m p same zero attempt w h = cc
  attempts-alone m p same (suc fuel) attempt w {res} h =
      then_do-alone m
        (λ r. settle env settings attempt r (attempts env settings fuel (attempt + 1) m)) w
      ∙ rw (same w) (
          settled (p w).0 (p w).1 (λ v again. attempts-alone m p same fuel (attempt + 1) v again) h)
    where
      settled :
          (r : Outcome (Unit {0})) (v : Sender)
          → ((u : Sender)
              → async_loop s (policy env settings) env.uniform no_sleep p fuel (attempt + 1) u
                ≡ some res
              → alone (attempts env settings fuel (attempt + 1) m) u ≡ res)
          → Retry.settle s (policy env settings) env.uniform no_sleep p attempt r v (λ e d u.
            async_loop s
              (policy env settings)
              env.uniform
              no_sleep
              p
              fuel
              (attempt + 1)
              (no_sleep d u))
            ≡ some res
          → alone (settle env settings attempt r (attempts env settings fuel (attempt + 1) m)) v
            ≡ res
      settled (ok u) v next e = cc
      settled (raised x) v next e = elim (Bool-cases (gives_up s (policy env settings) attempt)) [
        | inl last ↦ let f = rw last at e in rw last (cc)
        | inr more ↦
            elim (Option-cases
              (delay_for_attempt s (policy env settings) (attempt + 1) (env.uniform attempt))) [
                | inl overflow ↦ let f = rw (more, overflow) at e in rw (more, overflow) (cc)
                | inr (d, delay) ↦ rw (more, delay) (next v (rw (more, delay) at e))
              ]
      ]

  pub retried-alone :
      (m : Coroutine) (p : Do env settings)
      → ((w : Sender) → alone m w ≡ p w)
      → (w : Sender) → alone (retried env settings m) w ≡ Sequential.retried env settings p w
  unfolding retried Sequential.retried async_retry
  retried-alone m p same w = elim (Option-cases (Retrying.attempts env settings p w)) [
    | inl out ↦ absurd (attempts-ne-none env settings p w out)
    | inr (res, e) ↦ rw e (attempts-alone m p same (suc settings.max_attempts) 1 w e)
  ]
