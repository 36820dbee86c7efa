-- ===== src/Outcome/Respects.antt =====
-- Actions whose every run, whatever its outcome, relates the states before and after.
use rabbitmq_pika_adapter.Prelude.{Bool, true, false, if◌then◌else◌}
use rabbitmq_pika_adapter.Outcome.{
  Exception, Outcome, ok, raised, Action, and_then, ◌>>=◌, ◌>>◌, pure, raise, handle, try_except,
  handle_but_cancelled, async_try, is_cancelled,
}

module _ {S : Type 0} (R : S → S → Type 0) where
  abbrev pub Respects : {A : Type 0} → Action S A → Type 0
  Respects m = (s : S) → R s (m s).1

  pub record IsPreorder : Type 0 where
    pub reflexive : (s : S) → R s s
    pub transitive : {s t u : S} → R s t → R t u → R s u

  pub raise-Respects :
      (order : IsPreorder) (A : Type 0) (e : Exception) → Respects (raise {S = S} {A = A} e)
  raise-Respects order A e s = order.reflexive s

  module _ (order : IsPreorder) {A : Type 0} where
    pub pure-Respects : (a : A) → Respects (pure {S = S} a)
    pure-Respects a s = order.reflexive s

    pub if-Respects :
        (b : Bool) (m n : Action S A) → Respects m → Respects n → Respects (if b then m else n)
    if-Respects true m n p q = p
    if-Respects false m n p q = q

    and_then-Respects :
        {B : Type 0} (r : Outcome A) (f : A → Action S B)
        → ((a : A) → Respects (f a))
        → Respects (and_then r f)
    and_then-Respects (ok a) f p s = p a s
    and_then-Respects (raised e) f p s = order.reflexive s

    pub bind-Respects :
        {B : Type 0} (m : Action S A) (f : A → Action S B)
        → Respects m
        → ((a : A) → Respects (f a))
        → Respects (m >>= f)
    bind-Respects m f p q s = order.transitive (p s) (and_then-Respects (m s).0 f q (m s).1)

    pub then-Respects :
        {B : Type 0} (m : Action S A) (n : Action S B) → Respects m → Respects n → Respects (m >> n)
    then-Respects m n p q = bind-Respects m (λ _. n) p (λ _. q)

    handle-Respects :
        (r : Outcome A) (h : Exception → Action S A)
        → ((e : Exception) → Respects (h e))
        → Respects (handle r h)
    handle-Respects (ok a) h p s = order.reflexive s
    handle-Respects (raised e) h p s = p e s

    pub try_except-Respects :
        (m : Action S A) (h : Exception → Action S A)
        → Respects m
        → ((e : Exception) → Respects (h e))
        → Respects (try_except m h)
    try_except-Respects m h p q s = order.transitive (p s) (handle-Respects (m s).0 h q (m s).1)

    uncancelled-Respects :
        (r : Outcome A) (h : Exception → Action S A)
        → ((e : Exception) → Respects (h e))
        → Respects (handle_but_cancelled r h)
    uncancelled-Respects (ok a) h p s = order.reflexive s
    uncancelled-Respects (raised e) h p s =
        if-Respects (is_cancelled e) (raise e) (h e) (raise-Respects order A e) (p e) s

    pub async_try-Respects :
        (m : Action S A) (h : Exception → Action S A)
        → Respects m
        → ((e : Exception) → Respects (h e))
        → Respects (async_try m h)
    async_try-Respects m h p q s = order.transitive (p s) (uncancelled-Respects (m s).0 h q (m s).1)
