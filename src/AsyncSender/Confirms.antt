-- ===== src/AsyncSender/Confirms.antt =====
-- `AsyncSender`: every publish that was begun was handed to one `gather`, or is still pending.
use rabbitmq_pika_adapter.Prelude.{
  ℕ, ◌+◌, ◌≡◌, refl, ◌∙◌, List, [], ◌∷◌, arith, ◌==◌, if◌then◌else◌, ltb, leb, length, if_ind,
  sum_map, sum_map-append,
}
use rabbitmq_pika_adapter.Outcome.{Outcome, ok}
use rabbitmq_pika_adapter.Outcome.Respects.{IsPreorder}
use rabbitmq_pika_adapter.Value.{Value}
use rabbitmq_pika_adapter.Retry.Floats.{Seconds}
use rabbitmq_pika_adapter.AsyncSender.World.{
  Call, connect, open_channel, declare_exchange, publish, gather_all, close_channel,
  close_connection, Event, did, failed, cancelled_flusher, began, Env, Settings, Sender, call,
}
use rabbitmq_pika_adapter.AsyncSender.{gather, flush_confirms, flush_when_full, begin}
use rabbitmq_pika_adapter.AsyncSender.Keeps.{IsKept, Other}
use rabbitmq_pika_adapter.AsyncSender.Runs.{Operation, fresh, run, run-Respects}

abbrev pub same : ℕ → ℕ → ℕ
same n k = if n == k then 1 else 0

-- Publish `n` is begun, or was among those of a `gather` that has ended, by an event.
unfoldable pub begins : ℕ → Event → ℕ
begins n (began k body key) = same n k
begins n _ = 0

abbrev pub confirms : ℕ → Call → ℕ
confirms n (gather_all ks) = sum_map (same n) ks
confirms n _ = 0

unfoldable pub awaits : ℕ → Event → ℕ
awaits n (did c) = confirms n c
awaits n (failed c) = confirms n c
awaits n cancelled_flusher = 0
awaits n (began k body key) = 0

abbrev pub times_begun : ℕ → Sender → ℕ
times_begun n w = sum_map (begins n) w.log

abbrev pub times_awaited : ℕ → Sender → ℕ
times_awaited n w = sum_map (awaits n) w.log

abbrev pub times_pending : ℕ → Sender → ℕ
times_pending n w = sum_map (same n) w.pending

-- What is left of the publishes between two states, where only calls are made.
pub record Calls (awaited : ℕ → ℕ) (w v : Sender) : Type 0 where
  pub began_same : (n : ℕ) → times_begun n v ≡ times_begun n w
  pub awaited_more : (n : ℕ) → times_awaited n v ≡ awaited n + times_awaited n w
  pub pending_same : v.pending ≡ w.pending
  pub begun_same : v.begun ≡ w.begun

abbrev pub once_below : ℕ → ℕ → ℕ
once_below k n = if ltb n k then 1 else 0

-- The publishes are numbered as they are begun, and each was in one `gather` or is still pending.
pub record IsBalanced (w : Sender) : Type 0 where
  pub begun_once : (n : ℕ) → times_begun n w ≡ once_below w.begun n
  pub awaited_or_pending : (n : ℕ) → times_begun n w ≡ times_awaited n w + times_pending n w

abbrev pub StaysBalanced : Sender → Sender → Type 0
StaysBalanced w v = IsBalanced w → IsBalanced v

pub balanced_order : IsPreorder StaysBalanced
balanced_order = record { reflexive = λ w h. h; transitive = λ p q h. q (p h) }

module _ {s : Seconds} (env : Env s) (settings : Settings s) where
  pub call-Calls : (c : Call) (w : Sender) → Calls (λ n. confirms n c) w (call env c w).1
  unfolding call begins awaits
  call-Calls c w = record {
    began_same = λ n. ground arith;
    awaited_more = λ n. ground arith;
    pending_same = ground arith;
    begun_same = ground arith;
  }

  gather-Calls :
      (ns : List ℕ) (w : Sender) → Calls (λ n. sum_map (same n) ns) w (gather env settings ns w).1
  unfolding gather
  gather-Calls [] w = record {
    began_same = λ n. refl;
    awaited_more = λ n. omega arith;
    pending_same = refl;
    begun_same = refl;
  }
  gather-Calls (n ∷ ns) w = call-Calls (gather_all (n ∷ ns)) w

  calls-IsBalanced : (c : Call) → Other c → (w : Sender) → StaysBalanced w (call env c w).1
  calls-IsBalanced c other w h =
      let one = call-Calls c w in
      record {
        begun_once = λ n. rw one.begun_same (one.began_same n ∙ h.begun_once n);
        awaited_or_pending = λ n. rw one.pending_same (
            omega (
              arith,
              one.began_same n,
              one.awaited_more n,
              other-confirms n c other,
              h.awaited_or_pending n,
            ));
      }
    where
      other-confirms : (n : ℕ) (c : Call) → Other c → confirms n c ≡ 0
      other-confirms n (connect a) o = refl
      other-confirms n (open_channel b) o = refl
      other-confirms n (declare_exchange a b c d) o = refl
      other-confirms n (publish a b) o = refl
      other-confirms n (gather_all ks) o = absurd (cc)
      other-confirms n close_channel o = refl
      other-confirms n close_connection o = refl

  flush_confirms-IsBalanced : (w : Sender) → StaysBalanced w (flush_confirms env settings w).1
  unfolding flush_confirms
  flush_confirms-IsBalanced w h =
      let all = gather-Calls w.pending (record w { pending = [] }) in
      record {
        begun_once = λ n. rw all.begun_same (all.began_same n ∙ h.begun_once n);
        awaited_or_pending = λ n.
            rw all.pending_same
              (omega (arith, all.began_same n, all.awaited_more n, h.awaited_or_pending n));
      }

  begin-IsBalanced :
      (body : List ℕ) (key : Value) (w : Sender) → StaysBalanced w (begin env settings body key w)
  unfolding begins awaits
  begin-IsBalanced body key w h = record {
    begun_once = λ n. ground (arith, h.begun_once n);
    awaited_or_pending = λ n.
        ground (arith, h.awaited_or_pending n, sum_map-append (same n) w.pending (w.begun ∷ []));
  }

  flush_when_full-IsBalanced : (w : Sender) → StaysBalanced w (flush_when_full env settings w).1
  flush_when_full-IsBalanced w h =
      if_ind (λ (r : Outcome (Unit {0}) × Sender). IsBalanced r.1)
        (leb settings.confirm_batch_size (length w.pending)) {x = flush_confirms env settings w}
        {y = (ok tt, w)} (λ f. flush_confirms-IsBalanced w h) (λ f. h)

  pub balanced_kept : IsKept env settings StaysBalanced balanced_order
  unfolding begins awaits
  balanced_kept = record {
    calls = calls-IsBalanced;
    flags = λ a b c d w h. record {
      begun_once = h.begun_once;
      awaited_or_pending = h.awaited_or_pending;
    };
    cancels = λ w h. record {
      begun_once = λ n. omega (arith, h.begun_once n);
      awaited_or_pending = λ n. omega (arith, h.awaited_or_pending n);
    };
    flushes = flush_confirms-IsBalanced;
    batched = λ body key w h.
        flush_when_full-IsBalanced (begin env settings body key w) (begin-IsBalanced body key w h);
  }

  fresh-IsBalanced : IsBalanced fresh
  unfolding fresh
  fresh-IsBalanced = record { begun_once = λ n. ground arith; awaited_or_pending = λ n. refl }

  -- Whatever operations are done one after another, and whatever fails: each publish is begun under a number of
  -- its own, and it was among those of one `gather`, or it is pending once and was in none.
  pub run-IsBalanced : (os : List Operation) → IsBalanced (run env settings os fresh)
  run-IsBalanced os =
      run-Respects env settings StaysBalanced balanced_order balanced_kept os fresh fresh-IsBalanced
