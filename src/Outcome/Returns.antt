-- ===== src/Outcome/Returns.antt =====
-- When a sequence of actions returns.
use rabbitmq_pika_adapter.Prelude.{◌≡◌, refl}
use rabbitmq_pika_adapter.Outcome.{Outcome, ok, raised, Action, and_then, ◌>>◌}

module _ {S A B : Type 0} where
  -- Where `m >> n` returns, `m` has returned, and it ends as `n` does from there.
  pub then-returns :
      (m : Action S A) (n : Action S B) (s : S) {b : B}
      → ((m >> n) s).0 ≡ ok b
      → ((a : A) × ((m s).0 ≡ ok a)) × ((m >> n) s ≡ n (m s).1)
  then-returns m n s h = split (m s).0 (m s).1 h
    where
      split :
          (r : Outcome A) (t : S) {b : B}
          → (and_then r (λ _. n) t).0 ≡ ok b
          → ((a : A) × (r ≡ ok a)) × (and_then r (λ _. n) t ≡ n t)
      split (ok a) t h = ((a, refl), refl)
      split (raised e) t h = absurd (cc)

pub returns_too : {S B : Type 0} {r q : Outcome B × S} {b : B} → r ≡ q → r.0 ≡ ok b → q.0 ≡ ok b
returns_too e h = cc
