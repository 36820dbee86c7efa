-- ===== src/AsyncSender/Coroutines/Interleaving/Once.antt =====
-- However the coroutines of one sender are interleaved, each publish is handed to one `gather` at most.
use rabbitmq_pika_adapter.Prelude.{
  ℕ, ◌+◌, ◌≤◌, ◌≡◌, refl, Bool, true, false, List, [], ◌∷◌, ◌++◌, arith, All,
}
use rabbitmq_pika_adapter.Retry.Floats.{Seconds}
use rabbitmq_pika_adapter.AsyncSender.World.{Env, Settings, Sender}
use rabbitmq_pika_adapter.AsyncSender.Runs.{fresh}
use rabbitmq_pika_adapter.AsyncSender.Confirms.{times_awaited, times_pending, once_below}
use rabbitmq_pika_adapter.AsyncSender.Coroutines.{Coroutine, finished, section, awaiting, advance}
use rabbitmq_pika_adapter.AsyncSender.Coroutines.Interleaving.{
  System, new_system, Step, calls, advances, Reach, here, next,
}
use rabbitmq_pika_adapter.AsyncSender.Coroutines.Interleaving.Settling.{
  count, IsAccounted, Settles, advance-Settles,
}
use rabbitmq_pika_adapter.AsyncSender.Coroutines.Interleaving.Operations.{coroutine-IsSettling}

-- The tasks hold together what `held` says, and each awaits its part.
abbrev Hold : List Coroutine → (ℕ → ℕ) → Type 0
Hold [] held = (n : ℕ) → held n ≡ 0
Hold (c ∷ cs) held =
    (ns : List ℕ) × (others : ℕ → ℕ) × ((n : ℕ) → held n ≡ count n ns + others n)
    × Settles ns c
    × Hold cs others

-- One of the tasks, and what becomes of the whole if it goes on as `d`, holding `ms`.
one_of :
    (before : List Coroutine) (c : Coroutine) (after : List Coroutine) (held : ℕ → ℕ)
    → Hold (before ++ c ∷ after) held
    → (ns : List ℕ) × (others : ℕ → ℕ) × ((n : ℕ) → held n ≡ count n ns + others n)
      × Settles ns c
      × ((d : Coroutine) (ms : List ℕ)
          → Settles ms d
          → Hold (before ++ d ∷ after) (λ n. count n ms + others n))
one_of [] c after held (ns, others, e, p, rest) =
    (ns, others, e, p, λ d ms q. (ms, others, (λ n. refl), q, rest))
one_of (b ∷ before) c after held (ks, others, e, p, rest) =
    let (ns, fewer, e2, q, replaced) = one_of before c after others rest in
    (
      ns,
      λ n. count n ks + fewer n,
      λ n. omega (arith, e n, e2 n),
      q,
      λ d ms r. (ks, (λ n. count n ms + fewer n), (λ n. omega arith), p, replaced d ms r),
    )

abbrev pub has_finished : Coroutine → Bool
has_finished (finished r) = true
has_finished _ = false

nothing_held :
    (cs : List Coroutine) (held : ℕ → ℕ)
    → Hold cs held
    → All (λ c. has_finished c ≡ true) cs
    → (n : ℕ) → held n ≡ 0
nothing_held [] held h all n = h n
nothing_held (finished r ∷ cs) held (ns, others, e, p, rest) (yes_, all) n =
    let none_left = nothing_held cs others rest all n in
    let same_count : count n ns ≡ 0 = rw p refl in omega (arith, e n, none_left, same_count)
nothing_held (section f k ∷ cs) held h (no_, all) n = absurd (cc)
nothing_held (awaiting c k ∷ cs) held h (no_, all) n = absurd (cc)

same_held : {h g : ℕ → ℕ} {w : Sender} → ((n : ℕ) → h n ≡ g n) → IsAccounted h w → IsAccounted g w
same_held e a = record {
  begun_once = a.begun_once;
  accounted = λ n. omega (arith, e n, a.accounted n);
}

module _ {s : Seconds} (env : Env s) (settings : Settings s) where
  record IsSound (u : System) : Type 0 where
    held : ℕ → ℕ
    accounted : IsAccounted held u.sender
    hold : Hold u.tasks held

  Step-IsSound : {u v : System} → IsSound u → Step env settings u v → IsSound v
  Step-IsSound {u} h (calls o e) = rw e (record {
    held = h.held;
    accounted = h.accounted;
    hold = ([], h.held, (λ n. omega arith), (coroutine-IsSettling env settings o).settles, h.hold);
  })
  Step-IsSound {u} h (advances c before after split e) =
      let (ns, others, shares, p, replaced) = one_of before c after h.held (rw split at h.hold) in
      let (ms, moves, q) = advance-Settles env settings c ns u.sender p in
      rw e (record {
        held = λ n. count n ms + others n;
        accounted = moves others (same_held shares h.accounted);
        hold = replaced (advance env settings c u.sender).1 ms q;
      })

  new_system-IsSound : IsSound new_system
  unfolding new_system fresh
  new_system-IsSound = record {
    held = λ n. 0;
    accounted = record { begun_once = λ n. ground arith; accounted = λ n. refl };
    hold = λ n. refl;
  }

  Reach-IsSound : {u : System} → Reach env settings new_system u → IsSound u
  Reach-IsSound here = new_system-IsSound
  Reach-IsSound (next r step) = Step-IsSound (Reach-IsSound r) step

  -- However sends, starts, stops and rounds of the flush run between each other's awaits, and however their calls
  -- end: each publish that was ever begun was among those of at most one `gather` that has ended, it is not pending any
  -- more when it was, and once every task has finished it is pending or was in one. Where a `gather` raised, its other
  -- publishes may still be under way.
  pub interleaved_once :
      {u : System} (n : ℕ)
      → Reach env settings new_system u
      → (times_awaited n u.sender + times_pending n u.sender ≤ once_below u.sender.begun n)
        × (All (λ c. has_finished c ≡ true) u.tasks
            → times_awaited n u.sender + times_pending n u.sender ≡ once_below u.sender.begun n)
  interleaved_once {u} n r =
      let sound = Reach-IsSound r in
      let balance = sound.accounted.accounted n in
      let once = sound.accounted.begun_once n in
      (
        omega (arith, balance, once),
        λ all.
            let none_left = nothing_held u.tasks sound.held sound.hold all n in
            omega (arith, balance, once, none_left),
      )
