-- ===== src/Client/Publishing/Sound.antt =====
-- Each pool of a client was made for its message type and only used as a pool is used.
use rabbitmq_pika_adapter.Prelude.{
  ℕ, ◌≡◌, refl, sym, ap, ◌∙◌, String, Bool, true, false, Option, none, some, List, [], ◌∷◌, ◌++◌,
  length, get_elem?, modify_at, get_elem?-append, get_elem?-last, All, All-append, All-modify_at,
  All-map, map-modify_at, map-append, along_some, not, length-append, Option-cases, inl, inr, arith,
}
use rabbitmq_pika_adapter.Outcome.{Outcome, ok, raised}
use rabbitmq_pika_adapter.Retry.Floats.{Seconds}
use rabbitmq_pika_adapter.Retry.{RetryPolicy}
use rabbitmq_pika_adapter.Serializer.{Message}
use rabbitmq_pika_adapter.Backend.World.{Env}
use rabbitmq_pika_adapter.Backend.{is_full}
use rabbitmq_pika_adapter.Backend.Threads.{System, Step, initial}
use rabbitmq_pika_adapter.PublisherPool.{Config, Options, Pool, make_pool}
use rabbitmq_pika_adapter.PublisherPool.Operations.{PoolReach, PoolStep}
use rabbitmq_pika_adapter.PublisherPool.Operations as Operations
use rabbitmq_pika_adapter.Client.{
  Publisher, pooled, lightweight, lookup, new_client, close, cached, publisher,
}
use rabbitmq_pika_adapter.Client.Pools.{stop_all-IsClosed}
use rabbitmq_pika_adapter.Client.Publishing.{
  Entry, World, new_world, pool_of, Use, starts, stops, sends, added, stops_fine, settings_of, ask,
  used, stop_each, close_pools, has_room, ClientStep, asks, uses, runs, closes, ClientReach, here,
  next,
}
use rabbitmq_pika_adapter.Client.Publishing.Filed.{
  types, IsFiled, found_in_cache, handle-pool, stop_each-types, used-message_type,
}

not_full : (b : Bool) → not b ≡ true → b ≡ false
not_full true e = cc
not_full false e = refl

module _ (getenv : String → Option String) (config : Config) {s : Seconds} (env : Env s)
    (heartbeat_interval : ℕ) (policy : RetryPolicy s)
    (serializer : Message → Outcome (List ℕ)) where
  abbrev Settled : Entry → System → Type 0
  Settled e u =
      PoolReach env (settings_of getenv config env heartbeat_interval policy serializer e)
        serializer initial u

  -- The pool was made for its message type, and its backend was only used as a pool uses it.
  pub record IsGood (e : Entry) : Type 0 where
    pub options : Options
    pub made : make_pool getenv config e.message_type options ≡ ok e.pool
    pub reached : Settled e e.system

  pub record IsSound (w : World) : Type 0 where
    pub good : All IsGood w.entries
    pub numbered : length (types w) ≡ w.client.created
    pub filed : All (IsFiled (types w)) w.client.sync_pools

  stepped-IsGood :
      (e : Entry) {u : System}
      → IsGood e
      → PoolStep env
          (settings_of getenv config env heartbeat_interval policy serializer e)
          serializer
          e.system
          u
      → IsGood (record e { system = u })
  stepped-IsGood e g step = record {
    options = g.options;
    made = g.made;
    reached = Operations.next g.reached step;
  }

  abbrev Used : Publisher → Use → Entry → Entry
  Used = used getenv config env heartbeat_interval policy serializer

  used-IsGood :
      (h : Publisher) (what : Use) (e : Entry)
      → has_room getenv config env heartbeat_interval policy serializer what e ≡ true
      → IsGood e
      → IsGood (Used h what e)
  unfolding used has_room
  used-IsGood h starts e room g = stepped-IsGood e g (Operations.starts refl)
  used-IsGood h (sends m key) e room g = stepped-IsGood e g (
      Operations.sends m key
        (not_full
          (is_full env (settings_of getenv config env heartbeat_interval policy serializer e)
            e.system.backend)
          room)
        refl)
  used-IsGood (pooled n) stops e room g = stepped-IsGood e g (Operations.stops refl)
  used-IsGood (lightweight n) stops e room g = g

  -- Nothing is filed, or made, by what is done with a pool.
  changed-IsSound :
      (f : Entry → Entry) (n : ℕ) (w : World)
      → ((e : Entry) → (f e).message_type ≡ e.message_type)
      → ((e : Entry) → get_elem? w.entries n ≡ some e → IsGood e → IsGood (f e))
      → IsSound w
      → IsSound (record w { entries = modify_at f n w.entries })
  changed-IsSound f n w keeps good h =
      let same = map-modify_at (λ (e : Entry). e.message_type) f keeps n w.entries in
      record {
        good = All-modify_at IsGood f n w.entries good h.good;
        numbered = rw same h.numbered;
        filed = rw same h.filed;
      }

  pub new_world-IsSound : IsSound new_world
  unfolding new_world new_client
  new_world-IsSound = record { good = tt; numbered = refl; filed = tt }

  stop_each-IsGood :
      (cache : List (String × ℕ)) (entries : List Entry)
      → All IsGood entries
      → All IsGood (stop_each getenv config env heartbeat_interval policy serializer cache entries)
  unfolding stop_each has_room
  stop_each-IsGood [] entries h = h
  stop_each-IsGood ((t, n) ∷ rest) entries h =
      stop_each-IsGood rest (modify_at (Used (pooled n) stops) n entries) (
        All-modify_at IsGood (Used (pooled n) stops) n entries
          (λ e at g. used-IsGood (pooled n) stops e refl g) h)

  close_pools-IsSound :
      (w : World)
      → IsSound w
      → IsSound (close_pools getenv config env heartbeat_interval policy serializer w)
  unfolding close_pools close
  close_pools-IsSound w h =
      let same =
        stop_each-types getenv config env heartbeat_interval policy serializer w.client.sync_pools
          w.entries in
      let closed = stop_all-IsClosed getenv config stops_fine w.client.sync_pools w.client in
      record {
        good = stop_each-IsGood w.client.sync_pools w.entries h.good;
        numbered = rw same (h.numbered ∙ sym closed.created_kept);
        filed = tt;
      }

  module _ (t backend : String) (o : Options) (w : World) where
    abbrev Asked : Outcome Publisher × World
    Asked = ask getenv config env heartbeat_interval policy serializer t backend o w

    made_anew :
        (r : Outcome Pool)
        → make_pool getenv config t o ≡ r
        → IsSound w
        → let (answer, c) = cached getenv config stops_fine t backend none r w.client in
          let v : World = record { client = c; entries = added t none r w.entries } in
          IsSound v × ((h : Publisher) → answer ≡ ok h → get_elem? (types v) (pool_of h) ≡ some t)
    made_anew (raised x) e h =
        (record { good = h.good; numbered = h.numbered; filed = h.filed }, λ p e. cc)
    made_anew (ok pool) e h =
        let fresh : Entry = record { message_type = t; pool = pool; system = initial } in
        let extended = map-append (λ (e : Entry). e.message_type) w.entries (fresh ∷ []) in
        let last =
          ap (λ n. get_elem? (types w ++ t ∷ []) n) (sym h.numbered) ∙ get_elem?-last (types w) t in
        (
          record {
            good =
                All-append IsGood w.entries (fresh ∷ []) h.good
                  (record { options = o; made = e; reached = Operations.here }, tt);
            numbered = rw extended (omega (arith, length-append (types w) (t ∷ []), h.numbered));
            filed = rw extended (
                All-append (IsFiled (types w ++ t ∷ [])) w.client.sync_pools
                  ((t, w.client.created) ∷ [])
                  (All-map w.client.sync_pools (λ (u, n) q. get_elem?-append (types w) (t ∷ []) n q)
                    h.filed)
                  (last, tt));
          },
          λ p q. rw (extended, handle-pool backend w.client.created q) last,
        )

    pub asked-IsSound :
        IsSound w
        → IsSound Asked.1
          × ((h : Publisher) → Asked.0 ≡ ok h → get_elem? (types Asked.1) (pool_of h) ≡ some t)
    unfolding ask publisher
    asked-IsSound h = elim (Option-cases (lookup t w.client.sync_pools)) [
      | inr (n, hit) ↦ rw hit (
        (record { good = h.good; numbered = h.numbered; filed = h.filed }),
        λ p e.
            rw (handle-pool backend n e)
              (found_in_cache (types w) t w.client.sync_pools h.filed hit),
      )
      | inl miss ↦ rw miss (made_anew (make_pool getenv config t o) refl h)
    ]

  abbrev Room : Use → Entry → Type 0
  Room what e = has_room getenv config env heartbeat_interval policy serializer what e ≡ true

  abbrev Steps : System → Entry → Type 0
  Steps u e =
      Step env (settings_of getenv config env heartbeat_interval policy serializer e) e.system u

  Step-IsSound :
      {w v : World}
      → IsSound w
      → ClientStep getenv config env heartbeat_interval policy serializer w v
      → IsSound v
  Step-IsSound {w} h (asks t backend o e) = rw e (asked-IsSound t backend o w h).0
  Step-IsSound {w} h (uses p what e at room q) = rw q (
      changed-IsSound (Used p what) (pool_of p) w
        (used-message_type getenv config env heartbeat_interval policy serializer p what)
        (λ e' found g. used-IsGood p what e' (along_some (Room what) (sym at ∙ found) room) g) h)
  Step-IsSound {w} h (runs n e u at step q) = rw q (
      changed-IsSound (λ e. record e { system = u }) n w (λ e. refl)
        (λ e' found g.
          stepped-IsGood e' g
            (Operations.backend_steps (along_some (Steps u) (sym at ∙ found) step)))
        h)
  Step-IsSound {w} h (closes e) = rw e (close_pools-IsSound w h)

  pub Reach-IsSound :
      {w v : World}
      → IsSound w
      → ClientReach getenv config env heartbeat_interval policy serializer w v
      → IsSound v
  Reach-IsSound h here = h
  Reach-IsSound h (next r step) = Step-IsSound (Reach-IsSound h r) step
