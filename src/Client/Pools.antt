-- ===== src/Client/Pools.antt =====
-- No pool is lost: each one that the client makes is shared through the cache until `close` stops it.
use mathlib.Core.List.{append_assoc, append-nil}
use rabbitmq_pika_adapter.Prelude.{
  ℕ, zero, suc, ◌≡◌, refl, sym, ap, ◌∙◌, String, Option, none, some, List, [], ◌∷◌, ◌++◌, map,
  eq_iff, arith, map-append,
}
use rabbitmq_pika_adapter.Outcome.{Exception, Outcome, ok, raised}
use rabbitmq_pika_adapter.PublisherPool.{Config, Options, Pool, make_pool}
use rabbitmq_pika_adapter.Client.{
  Client, new_client, Publisher, lookup, handle, failure, raise_if_errors, cached, publisher,
  stop_all, close, Operation, get_publisher, close_all, perform, run,
}

-- The numbers below `n`, in order.
pub upto : ℕ → List ℕ
upto zero = []
upto (suc n) = upto n ++ n ∷ []

abbrev pub pools : List (String × ℕ) → List ℕ
pools cache = map (λ entry. entry.1) cache

abbrev pub stopped : List (ℕ × Outcome (Unit {0})) → List ℕ
stopped stops = map (λ s. s.0) stops

-- The errors among the answers of `pool.stop()`.
abbrev pub failures : List (ℕ × Outcome (Unit {0})) → List Exception
failures [] = []
failures ((pool, r) ∷ rest) = failure r ++ failures rest

module _ (getenv : String → Option String) (config : Config)
    (stop_pool : List (ℕ × Outcome (Unit {0})) → ℕ → Outcome (Unit {0})) where
  -- What `close` did: `new` are the calls that it made.
  pub record IsClosed (cache : List (String × ℕ)) (c c' : Client) (errors : List Exception)
      : Type 0 where
    pub new : List (ℕ × Outcome (Unit {0}))
    pub appended : c'.stops ≡ c.stops ++ new
    pub each_stopped : stopped new ≡ pools cache
    pub reported : errors ≡ failures new
    pub created_kept : c'.created ≡ c.created

  pub stop_all-IsClosed :
      (cache : List (String × ℕ)) (c : Client)
      → let (errors, c') = stop_all getenv config stop_pool cache c in IsClosed cache c c' errors
  unfolding stop_all
  stop_all-IsClosed [] c = record {
    new = [];
    appended = sym (append-nil c.stops);
    each_stopped = refl;
    reported = refl;
    created_kept = refl;
  }
  stop_all-IsClosed ((t, pool) ∷ rest) c =
      let r = stop_pool c.stops pool in
      let h = stop_all-IsClosed rest (record c { stops = c.stops ++ (pool, r) ∷ [] }) in
      record {
        new = (pool, r) ∷ h.new;
        appended = h.appended ∙ append_assoc c.stops ((pool, r) ∷ []) h.new;
        each_stopped = ap (λ l. pool ∷ l) h.each_stopped;
        reported = ap (λ l. failure r ++ l) h.reported;
        created_kept = h.created_kept;
      }

  -- `close` stops each cached pool once, in the order of their creation, whether or not others fail
  -- to stop; it empties the cache and raises exactly the errors of the pools that failed.
  pub close-reports :
      (c : Client)
      → let (error, c') = close getenv config stop_pool c in
        (new : List (ℕ × Outcome (Unit {0}))) × (c'.stops ≡ c.stops ++ new)
        × (stopped new ≡ pools c.sync_pools)
        × (error ≡ raise_if_errors (failures new))
        × (c'.sync_pools ≡ [])
  unfolding close
  close-reports c =
      let h = stop_all-IsClosed c.sync_pools c in
      (h.new, h.appended, h.each_stopped, ap raise_if_errors h.reported, refl)

  -- Every pool made so far, in order, was stopped or is in the cache.
  abbrev pub Kept : Client → Type 0
  Kept c = stopped c.stops ++ pools c.sync_pools ≡ upto c.created

  cached-Kept :
      (t backend : String) (o : Option ℕ) (made : Outcome Pool) (c : Client)
      → Kept c
      → Kept (cached getenv config stop_pool t backend o made c).1
  unfolding upto
  cached-Kept t backend (some pool) made c h = h
  cached-Kept t backend none (raised e) c h = h
  cached-Kept t backend none (ok p) c h =
      ap (λ l. stopped c.stops ++ l)
        (map-append (λ entry. entry.1) c.sync_pools ((t, c.created) ∷ []))
      ∙ sym (append_assoc (stopped c.stops) (pools c.sync_pools) (c.created ∷ []))
      ∙ ap (λ l. l ++ c.created ∷ []) h

  close_stops :
      (c : Client) → Kept c → stopped (close getenv config stop_pool c).1.stops ≡ upto c.created
  unfolding close
  close_stops c h =
      let closed = stop_all-IsClosed c.sync_pools c in
      ap stopped closed.appended
      ∙ map-append (λ s. s.0) c.stops closed.new
      ∙ ap (λ l. stopped c.stops ++ l) closed.each_stopped
      ∙ h

  perform-Kept :
      (op : Operation getenv config stop_pool) (c : Client)
      → Kept c
      → Kept (perform getenv config stop_pool op c)
  unfolding perform publisher close
  perform-Kept (get_publisher t backend o) c h =
      cached-Kept t backend (lookup t c.sync_pools) (make_pool getenv config t o) c h
  perform-Kept close_all c h =
      append-nil (stopped (close getenv config stop_pool c).1.stops)
      ∙ close_stops c h
      ∙ ap upto (sym (stop_all-IsClosed c.sync_pools c).created_kept)

  run-Kept :
      (ops : List (Operation getenv config stop_pool)) (c : Client)
      → Kept c
      → Kept (run getenv config stop_pool ops c)
  unfolding run
  run-Kept [] c h = h
  run-Kept (op ∷ ops) c h =
      run-Kept ops (perform getenv config stop_pool op c) (perform-Kept op c h)

  -- Whatever publishers are asked for and however often the client is closed before, a `close` has
  -- stopped every pool that the client ever made, each exactly once, in the order of their creation.
  pub every_pool_stopped :
      (ops : List (Operation getenv config stop_pool))
      → let c = run getenv config stop_pool ops new_client in
        stopped (close getenv config stop_pool c).1.stops ≡ upto c.created
  unfolding new_client upto
  every_pool_stopped ops =
      close_stops (run getenv config stop_pool ops new_client) (run-Kept ops new_client refl)

  abbrev pub pool_of : Publisher → ℕ
  pool_of (Publisher.pooled pool) = pool
  pool_of (Publisher.lightweight pool) = pool

  lookup-append :
      (t : String) (cache : List (String × ℕ)) (pool : ℕ)
      → lookup t cache ≡ none
      → lookup t (cache ++ (t, pool) ∷ []) ≡ some pool
  unfolding lookup
  lookup-append t [] pool h = ground (arith, eq_iff t t)
  lookup-append t ((u, p) ∷ rest) pool h = ground (arith, lookup-append t rest pool)

  pool_of-handle :
      (backend : String) (pool : ℕ) {h : Publisher} → handle backend pool ≡ ok h → pool_of h ≡ pool
  pool_of-handle backend pool e = ground arith

  shared :
      (t backend backend' : String) (o : Option ℕ) (made made' : Outcome Pool) (c : Client)
      {h : Publisher}
      → lookup t c.sync_pools ≡ o
      → (cached getenv config stop_pool t backend o made c).0 ≡ ok h
      → let c' = (cached getenv config stop_pool t backend o made c).1 in
        cached getenv config stop_pool t backend' (lookup t c'.sync_pools) made' c'
        ≡ (handle backend' (pool_of h), c')
  shared t backend backend' (some pool) made made' c found e =
      rw (found, pool_of-handle backend pool e) refl
  shared t backend backend' none (raised x) made' c found e = cc
  shared t backend backend' none (ok p) made' c found e =
      rw (lookup-append t c.sync_pools c.created found, pool_of-handle backend c.created e) refl

  -- Once a publisher for a message type was given out, further ones share its pool, of either kind and
  -- whatever options they ask for, and no pool is made.
  pub publisher-shares :
      (t backend backend' : String) (o o' : Options) (c : Client) {h : Publisher}
      → (publisher getenv config stop_pool t backend o c).0 ≡ ok h
      → let c' = (publisher getenv config stop_pool t backend o c).1 in
        publisher getenv config stop_pool t backend' o' c' ≡ (handle backend' (pool_of h), c')
  unfolding publisher
  publisher-shares t backend backend' o o' c e =
      shared t backend backend' (lookup t c.sync_pools) (make_pool getenv config t o)
        (make_pool getenv config t o') c refl e
