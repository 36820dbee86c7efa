-- ===== src/Backend/Stopping.antt =====
-- Ends of the publishing thread that the caller did not ask for.
use native.Mathlib.Decide.{ℕ_discrete}
use rabbitmq_pika_adapter.Prelude.{
  ℕ, zero, suc, ◌+◌, ◌-◌, ◌≤◌, ◌≡◌, ◌≢◌, ◌⊎◌, refl, ap, ◌∙◌, Bool, true, false, Option, none, some,
  List, [], ◌∷◌, ◌++◌, arith, inl, inr, if◌then◌else◌,
}
use rabbitmq_pika_adapter.Outcome.{Exception, raised}
use rabbitmq_pika_adapter.Stats.{reconnect_attempts}
use rabbitmq_pika_adapter.Retry.Floats.{Seconds}
use rabbitmq_pika_adapter.Retry.{backoff, delay_for_attempt}
use rabbitmq_pika_adapter.Backend.World.{
  PublishRequest, open_connection, failed, counted, Log, Env, Settings, Backend, Place, absent,
  at_head, at_get,
}
use rabbitmq_pika_adapter.Backend.Order.{head_phase-Quiet, get_other-Quiet}
use rabbitmq_pika_adapter.Backend.{
  is_full, stop, start, ensure_connection_and_channels, open_new, reset, recover, clean_up,
  head_phase, after_get, get_from, get_phase,
}

module _ {s : Seconds} (env : Env s) (settings : Settings s) where
  restart-queue :
      (b : Backend)
      → b.place ≡ absent
      → b.stop_event ≡ false
      → b.queue ≡ []
      → (start env settings (stop env settings b)).queue ≡ none ∷ []
  unfolding start stop is_full
  restart-queue b gone unset empty = ground arith

  get_sentinel :
      (q rest : List (Option PublishRequest)) (b : Backend)
      → q ≡ none ∷ rest
      → let b' = get_from env settings q b in (b'.place ≡ absent) × (b'.queue ≡ rest)
  unfolding get_from after_get clean_up
  get_sentinel q rest b e =
      rw e (refl, (get_other-Quiet env settings (record b { queue = rest })).1.queue)

  -- After a first `stop` that found neither a thread nor anything in the queue, the sentinel of that `stop` is
  -- still the first item. Whatever requests `q` are queued after a `start`: once the new thread has its
  -- connection and gets an item, it takes the sentinel, ends, and leaves all of `q` in the queue.
  pub restart_ends :
      (b : Backend) (q : List (Option PublishRequest))
      → b.place ≡ absent
      → b.stop_event ≡ false
      → b.queue ≡ []
      → let restarted = start env settings (stop env settings b) in
        let ready = head_phase env settings (record restarted { queue = restarted.queue ++ q }) in
        ready.place ≡ at_get
        → let ended = get_phase env settings ready in (ended.place ≡ absent) × (ended.queue ≡ q)
  unfolding get_phase
  restart_ends b q gone unset empty connected =
      let restarted = start env settings (stop env settings b) in
      let waiting = record restarted { queue = restarted.queue ++ q } in
      let ready = head_phase env settings waiting in
      get_sentinel ready.queue q ready (
        (head_phase-Quiet env settings waiting).queue
        ∙ ap (λ l. l ++ q) (restart-queue b gone unset empty))

  abbrev is_at_head : Place → Bool
  is_at_head at_head = true
  is_at_head _ = false

  -- Rounds of the loop that get no connection.
  pub rounds : ℕ → Backend → Backend
  rounds zero b = b
  rounds (suc n) b =
      let rest = rounds n (head_phase env settings b) in if is_at_head b.place then rest else b

  -- The thread is at the head of the loop without a connection, after `f` failures in a row.
  pub record IsFailing (f : ℕ) (b : Backend) : Type 0 where
    pub at_start : b.place ≡ at_head
    pub unset : b.stop_event ≡ false
    pub unconnected : b.connected ≡ false
    pub failures : b.reconnect_failures ≡ f

  abbrev HasDelay : ℕ → Type 0
  HasDelay f = backoff s settings.reconnect_retry_policy (f + 1 + 1) ≢ none

  delay-HasDelay :
      (f : ℕ) (uniform : s.T → s.T → s.T) {d : s.T}
      → delay_for_attempt s settings.reconnect_retry_policy (f + 1 + 1) uniform ≡ some d
      → HasDelay f
  unfolding delay_for_attempt
  delay-HasDelay f uniform e overflow = ground arith

  reset-IsFailing :
      (f : ℕ) (delay : Option s.T) (b : Backend)
      → ((d : s.T) → delay ≡ some d → HasDelay f)
      → IsFailing (f + 1) b
      → ((reset env settings delay b).place ≡ absent)
        ⊎ (IsFailing (f + 1) (reset env settings delay b) × HasDelay f)
  unfolding reset
  reset-IsFailing f none b has h = inl refl
  reset-IsFailing f (some d) b has h = inr (ground arith, has d refl)

  recover-IsFailing :
      (f : ℕ) (b : Backend)
      → IsFailing f b
      → ((recover env settings b).place ≡ absent)
        ⊎ (IsFailing (f + 1) (recover env settings b) × HasDelay f)
  unfolding recover
  recover-IsFailing f b h =
      let failed = record b {
        reconnect_failures = b.reconnect_failures + 1;
        log = counted reconnect_attempts ∷ b.log;
      } in
      reset-IsFailing f _ failed
        (λ d e. delay-HasDelay f (env.uniform failed.log) (rw h.failures at e)) (ground arith)

  module _
      (down : (log : Log) → (e : Exception) × (env.answer log open_connection ≡ raised e)) where
    IsFailing-round :
        (f : ℕ) (b : Backend)
        → IsFailing f b
        → ((head_phase env settings b).place ≡ absent)
          ⊎ (IsFailing (f + 1) (head_phase env settings b) × HasDelay f)
    unfolding head_phase ensure_connection_and_channels open_new
    IsFailing-round f b h =
        let (e, refused) = down b.log in
        let tried = record b { log = failed open_connection ∷ b.log } in
        ground (arith, refused, recover-IsFailing f tried)

    rounds-at_head :
        (n : ℕ) (b : Backend)
        → b.place ≡ at_head
        → rounds (suc n) b ≡ rounds n (head_phase env settings b)
    unfolding rounds
    rounds-at_head n b e = ground arith

    rounds-absent : (n : ℕ) (b : Backend) → b.place ≡ absent → (rounds n b).place ≡ absent
    unfolding rounds
    rounds-absent zero b e = e
    rounds-absent (suc n) b e = ground arith

    module _ (k : ℕ) (huge : s.pow settings.reconnect_retry_policy.multiplier k ≡ none) where
      no_delay : ¬ HasDelay k
      unfolding backoff
      no_delay has =
          let exponent : k + 1 + 1 - 2 ≡ k = omega arith in has (ground (arith, exponent))

      rounds-end :
          (n f : ℕ) (b : Backend)
          → IsFailing f b
          → f ≤ k
          → f + n ≡ suc k
          → (rounds n b).place ≡ absent
      rounds-end zero f b h below total = absurd (omega arith)
      rounds-end (suc n) f b h below total =
          let b' = head_phase env settings b in
          ap (λ c. c.place) (rounds-at_head n b h.at_start) ∙ elim (IsFailing-round f b h) [
            | inl gone ↦ rounds-absent n b' gone
            | inr (failing, has) ↦ elim (ℕ_discrete f k) [
              | yes last ↦ absurd (no_delay (rw last at has))
              | no early ↦ rounds-end n (f + 1) b' failing (omega arith) (omega arith)
            ]
          ]

  -- While no connection can be made, the thread does not retry for ever, though the policy may set no
  -- bound: where `multiplier ** k` overflows, it is gone after at most `k + 1` rounds.
  pub thread_dies_on_overflow :
      (k : ℕ) (b : Backend)
      → IsFailing 0 b
      → ((log : Log) → (e : Exception) × (env.answer log open_connection ≡ raised e))
      → s.pow settings.reconnect_retry_policy.multiplier k ≡ none
      → (rounds (suc k) b).place ≡ absent
  thread_dies_on_overflow k b h down huge =
      rounds-end down k huge (suc k) 0 b h (omega arith) (omega arith)
