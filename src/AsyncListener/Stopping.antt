-- ===== src/AsyncListener/Stopping.antt =====
-- What `stop` of `AsyncListener` releases.
use rabbitmq_pika_adapter.Prelude.{
  ◌≡◌, refl, ◌∙◌, ◌⊎◌, inl, inr, Bool, true, false, not, ◌&&◌, none, ◌∷◌, arith,
}
use rabbitmq_pika_adapter.Outcome.{ok, Survives, is_cancelled, Outcome-cases}
use rabbitmq_pika_adapter.AsyncListener.World.{
  Call, close_channel, close_connection, cancel_consumer, wait_for_tasks, did, failed, Log, Env,
  Settings, Listener, call,
}
use rabbitmq_pika_adapter.AsyncListener.Calls.{call-ok, call-raised}
use rabbitmq_pika_adapter.AsyncListener.Lifecycle.{
  attempt, attempt_if, is_empty_set, connected, drain, let_go, stop,
}

module _ (env : Env) (settings : Settings) where
  -- A call was tried, and nothing else has changed.
  record Tried (c : Call) (s t : Listener) : Type 0 where
    same_connection : t.has_connection ≡ s.has_connection
    same_channel : t.has_channel ≡ s.has_channel
    same_consumer : t.has_consumer ≡ s.has_consumer
    same_semaphore : t.semaphore ≡ s.semaphore
    in_log : (t.log ≡ did c ∷ s.log) ⊎ (t.log ≡ failed c ∷ s.log)

  attempt-Tried :
      (c : Call) (s : Listener)
      → Survives (env.answer s.log c)
      → let (r, t) = attempt env settings c s in (r ≡ ok tt) × Tried c s t
  unfolding call
  attempt-Tried c s survives = elim (Outcome-cases (env.answer s.log c)) [
    | inl fine ↦ rw (call-ok env c s fine) (
      refl,
      record {
        same_connection = refl;
        same_channel = refl;
        same_consumer = refl;
        same_semaphore = refl;
        in_log = inl refl;
      },
    )
    | inr (e, bad) ↦
        let lives : is_cancelled e ≡ false = rw bad at survives in
        rw (call-raised env c s bad, lives)
          (
            refl,
            record {
              same_connection = refl;
              same_channel = refl;
              same_consumer = refl;
              same_semaphore = refl;
              in_log = inr refl;
            },
          )
  ]

  -- The close of the connection was tried last, or the connection is closed.
  abbrev pub Closed : Log → Type 0
  Closed log =
      ((before : Log) × ((log ≡ did close_connection ∷ before)
          ⊎ (log ≡ failed close_connection ∷ before)))
      ⊎ (env.connection_closed log ≡ true)

  pub record IsReleased (s : Listener) : Type 0 where
    pub no_consumer : s.has_consumer ≡ false
    pub no_semaphore : s.semaphore ≡ none
    pub no_channel : s.has_channel ≡ false
    pub no_connection : s.has_connection ≡ false

  -- No call is cancelled.
  abbrev pub Uncancelled : Type 0
  Uncancelled = (log : Log) (c : Call) → Survives (env.answer log c)

  -- What the best-effort calls leave alone.
  record Kept (s t : Listener) : Type 0 where
    same_connection : t.has_connection ≡ s.has_connection
    same_channel : t.has_channel ≡ s.has_channel
    same_consumer : t.has_consumer ≡ s.has_consumer
    same_semaphore : t.semaphore ≡ s.semaphore

  module _ (lives : Uncancelled) where
    attempt_if-Kept :
        (b : Bool) (c : Call) (s : Listener)
        → let (r, t) = attempt_if env settings b c s in (r ≡ ok tt) × Kept s t
    attempt_if-Kept true c s =
        let (fine, tried) = attempt-Tried c s (lives s.log c) in
        (
          fine,
          record {
            same_connection = tried.same_connection;
            same_channel = tried.same_channel;
            same_consumer = tried.same_consumer;
            same_semaphore = tried.same_semaphore;
          },
        )
    attempt_if-Kept false c s = (
      refl,
      record {
        same_connection = refl;
        same_channel = refl;
        same_consumer = refl;
        same_semaphore = refl;
      },
    )

    drain_lem :
        (s : Listener)
        → let (r, t) = drain env settings s in (r ≡ ok tt) × (t.has_connection ≡ s.has_connection)
    unfolding drain
    drain_lem s =
        let (fine, kept) = attempt_if-Kept (s.has_queue && s.has_consumer) cancel_consumer s in
        let s1 = (attempt_if env settings (s.has_queue && s.has_consumer) cancel_consumer s).1 in
        let waiting = not (is_empty_set env settings s1.waiting s1.running) in
        let (fine2, kept2) = attempt_if-Kept waiting wait_for_tasks s1 in
        rw fine (fine2, kept2.same_connection ∙ kept.same_connection)

    closes :
        (b : Bool) (s : Listener)
        → (b ≡ false → env.connection_closed s.log ≡ true)
        → Closed (attempt_if env settings b close_connection s).1.log
    closes true s h =
        inl (s.log, (attempt-Tried close_connection s (lives s.log close_connection)).1.in_log)
    closes false s h = inr (h refl)

    close-Closed :
        (s : Listener)
        → s.has_connection ≡ true
        → Closed (attempt_if env settings (connected env settings s) close_connection s).1.log
    close-Closed s there = closes (connected env settings s) s (λ h. ground arith)

    let_go_lem :
        (s : Listener)
        → s.has_connection ≡ true
        → let (r, t) = let_go env settings s in (r ≡ ok tt) × (IsReleased t × Closed t.log)
    unfolding let_go
    let_go_lem s there =
        let s1 = record s { has_consumer = false; semaphore = none } in
        let open_channel = s1.has_channel && not (env.channel_closed s1.log) in
        let (fine, kept) = attempt_if-Kept open_channel close_channel s1 in
        let s2 = record ((attempt_if env settings open_channel close_channel s1).1) {
          has_channel = false;
        } in
        let (fine2, kept2) = attempt_if-Kept (connected env settings s2) close_connection s2 in
        let closed = close-Closed s2 (kept.same_connection ∙ there) in
        rw (fine, fine2)
          (
            refl,
            (
              record {
                no_consumer = kept2.same_consumer ∙ kept.same_consumer;
                no_semaphore = kept2.same_semaphore ∙ kept.same_semaphore;
                no_channel = kept2.same_channel;
                no_connection = refl;
              },
              closed,
            ),
          )

    -- If no call is cancelled, `stop` of a listener with a connection returns, whatever else its calls do.
    -- No consumer, semaphore, channel or connection is left, and the last thing done was to close the
    -- connection, or it was closed already.
    pub stop-IsReleased :
        (s : Listener)
        → s.has_connection ≡ true
        → let (r, t) = stop env settings s in (r ≡ ok tt) × (IsReleased t × Closed t.log)
    unfolding stop
    stop-IsReleased s there =
        let (fine, same) = drain_lem s in
        rw fine (let_go_lem (drain env settings s).1 (same ∙ there))
