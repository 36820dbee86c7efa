-- ===== src/AsyncSender/Pending.antt =====
-- `AsyncSender`: the publishes that no one has awaited.
use rabbitmq_pika_adapter.Prelude.{
  ℕ, ◌<◌, ◌≡◌, refl, List, [], ◌∷◌, arith, length, leb, Bool-cases, inl, inr,
}
use rabbitmq_pika_adapter.Outcome.Respects.{IsPreorder}
use rabbitmq_pika_adapter.Retry.Floats.{Seconds}
use rabbitmq_pika_adapter.AsyncSender.World.{Call, gather_all, Env, Settings, Sender, call}
use rabbitmq_pika_adapter.AsyncSender.{gather, flush_confirms, flush_when_full, begin}
use rabbitmq_pika_adapter.AsyncSender.Keeps.{IsKept}
use rabbitmq_pika_adapter.AsyncSender.Runs.{Operation, fresh, run, run-Respects}

module _ {s : Seconds} (env : Env s) (settings : Settings s) where
  call-pending : (c : Call) (w : Sender) → (call env c w).1.pending ≡ w.pending
  unfolding call
  call-pending c w = ground arith

  gather-pending : (ns : List ℕ) (w : Sender) → (gather env settings ns w).1.pending ≡ w.pending
  unfolding gather
  gather-pending [] w = refl
  gather-pending (n ∷ ns) w = call-pending (gather_all (n ∷ ns)) w

  pub flush_confirms-pending : (w : Sender) → (flush_confirms env settings w).1.pending ≡ []
  unfolding flush_confirms
  flush_confirms-pending w = gather-pending w.pending (record w { pending = [] })

  abbrev Small : Sender → Type 0
  Small w = length w.pending < settings.confirm_batch_size

  abbrev StaysSmall : Sender → Sender → Type 0
  StaysSmall w v = Small w → Small v

  small_order : IsPreorder StaysSmall
  small_order = record { reflexive = λ w h. h; transitive = λ p q h. q (p h) }

  flush_when_full-Small :
      0 < settings.confirm_batch_size → (w : Sender) → Small (flush_when_full env settings w).1
  flush_when_full-Small positive w =
      elim (Bool-cases (leb settings.confirm_batch_size (length w.pending))) [
        | inl full ↦ rw (full, flush_confirms-pending w) positive
        | inr not_full ↦ rw not_full (ground arith)
      ]

  small_kept : 0 < settings.confirm_batch_size → IsKept env settings StaysSmall small_order
  small_kept positive = record {
    calls = λ c o w h. rw (call-pending c w) h;
    flags = λ a b c d w h. h;
    cancels = λ w h. h;
    flushes = λ w h. rw (flush_confirms-pending w) positive;
    batched = λ body key w h. flush_when_full-Small positive (begin env settings body key w);
  }

  -- However the sender is used, and whatever fails, fewer than `confirm_batch_size` publishes stay
  -- without an await, where that size is positive.
  pub run-pending_lt :
      0 < settings.confirm_batch_size
      → (os : List Operation)
      → length (run env settings os fresh).pending < settings.confirm_batch_size
  unfolding fresh
  run-pending_lt positive os =
      run-Respects env settings StaysSmall small_order (small_kept positive) os fresh positive
