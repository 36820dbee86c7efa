-- ===== src/AsyncListener/Calls.antt =====
-- The two ways in which a call ends.
use rabbitmq_pika_adapter.Prelude.{◌≡◌, ◌∷◌, arith}
use rabbitmq_pika_adapter.Outcome.{Exception, ok, raised}
use rabbitmq_pika_adapter.AsyncListener.World.{Call, did, failed, Env, Listener, call}

module _ (env : Env) where
  pub call-ok :
      (c : Call) (s : Listener)
      → env.answer s.log c ≡ ok tt
      → call env c s ≡ (ok tt, record s { log = did c ∷ s.log })
  unfolding call
  call-ok c s h = ground arith

  pub call-raised :
      (c : Call) (s : Listener) {e : Exception}
      → env.answer s.log c ≡ raised e
      → call env c s ≡ (raised e, record s { log = failed c ∷ s.log })
  unfolding call
  call-raised c s h = ground arith
