-- ===== src/Client/Publishing/Filed.antt =====
-- Pools are filed, and stay, under the message types that they were made for.
use rabbitmq_pika_adapter.Prelude.{
  ℕ, ◌≡◌, refl, ap, ◌∙◌, String, Option, none, some, List, [], ◌∷◌, map, get_elem?, modify_at,
  get_elem?-append, All, map-modify_at, map-append, along_some, inl, inr, arith, str_eq, eq_iff,
  Bool-cases,
}
use rabbitmq_pika_adapter.Outcome.{Outcome, ok, raised, along_ok}
use rabbitmq_pika_adapter.Retry.Floats.{Seconds}
use rabbitmq_pika_adapter.Retry.{RetryPolicy}
use rabbitmq_pika_adapter.Serializer.{Message}
use rabbitmq_pika_adapter.Backend.World.{Env}
use rabbitmq_pika_adapter.Backend.Threads.{initial}
use rabbitmq_pika_adapter.PublisherPool.{Config, Options, Pool, make_pool}
use rabbitmq_pika_adapter.Client.{Publisher, pooled, lightweight, lookup, handle}
use rabbitmq_pika_adapter.Client.Publishing.{
  Entry, World, pool_of, Use, starts, stops, sends, added, ask, used, stop_each, close_pools,
  ClientStep, asks, uses, runs, closes, ClientReach, here, next,
}

abbrev pub types : World → List String
types w = map (λ e. e.message_type) w.entries

-- What is filed under a message type was made for it.
abbrev pub IsFiled : List String → String × ℕ → Type 0
IsFiled ts (t, n) = get_elem? ts n ≡ some t

pub found_in_cache :
    (ts : List String) (t : String) (cache : List (String × ℕ)) {n : ℕ}
    → All (IsFiled ts) cache
    → lookup t cache ≡ some n
    → get_elem? ts n ≡ some t
unfolding lookup
found_in_cache ts t [] h e = cc
found_in_cache ts t ((u, m) ∷ rest) h e = elim (Bool-cases (str_eq u t)) [
  | inl same ↦
      let p = (eq_iff u t).0 same in
      along_some (λ (k : ℕ). get_elem? ts k ≡ some t) (rw same at e) (h.0 ∙ ap (λ x. some x) p)
  | inr other ↦ found_in_cache ts t rest h.1 (rw other at e)
]

pub handle-pool :
    (backend : String) (n : ℕ) {h : Publisher} → handle backend n ≡ ok h → pool_of h ≡ n
handle-pool backend n e = elim (Bool-cases (str_eq backend "pool")) [
  | inl p ↦ along_ok (λ (h : Publisher). pool_of h ≡ n) (rw p at e) refl
  | inr q ↦ elim (Bool-cases (str_eq backend "lightweight_sender")) [
    | inl l ↦ along_ok (λ (h : Publisher). pool_of h ≡ n) (rw (q, l) at e) refl
    | inr m ↦ absurd (ground arith)
  ]
]

added-types :
    (t : String) (hit : Option ℕ) (r : Outcome Pool) (entries : List Entry) (n : ℕ) {u : String}
    → get_elem? (map (λ e. e.message_type) entries) n ≡ some u
    → get_elem? (map (λ e. e.message_type) (added t hit r entries)) n ≡ some u
added-types t (some m) r entries n h = h
added-types t none (raised x) entries n h = h
added-types t none (ok p) entries n h =
    rw
      (map-append (λ (e : Entry). e.message_type) entries
        (record { message_type = t; pool = p; system = initial } ∷ []))
      (get_elem?-append (map (λ e. e.message_type) entries) (t ∷ []) n h)

module _ (getenv : String → Option String) (config : Config) {s : Seconds} (env : Env s)
    (heartbeat_interval : ℕ) (policy : RetryPolicy s)
    (serializer : Message → Outcome (List ℕ)) where
  abbrev pub Used : Publisher → Use → Entry → Entry
  Used = used getenv config env heartbeat_interval policy serializer

  pub used-message_type :
      (h : Publisher) (what : Use) (e : Entry) → (Used h what e).message_type ≡ e.message_type
  unfolding used
  used-message_type h starts e = refl
  used-message_type h (sends m key) e = refl
  used-message_type (pooled n) stops e = refl
  used-message_type (lightweight n) stops e = refl

  pub stop_each-types :
      (cache : List (String × ℕ)) (entries : List Entry)
      → map
          (λ e. e.message_type)
          (stop_each getenv config env heartbeat_interval policy serializer cache entries)
        ≡ map (λ e. e.message_type) entries
  unfolding stop_each
  stop_each-types [] entries = refl
  stop_each-types ((t, n) ∷ rest) entries =
      stop_each-types rest (modify_at (Used (pooled n) stops) n entries)
      ∙ map-modify_at (λ (e : Entry). e.message_type) (Used (pooled n) stops)
          (used-message_type (pooled n) stops) n entries

  asked-types :
      (t backend : String) (o : Options) (w : World) (n : ℕ) {u : String}
      → get_elem? (types w) n ≡ some u
      → get_elem?
          (types (ask getenv config env heartbeat_interval policy serializer t backend o w).1)
          n
        ≡ some u
  unfolding ask
  asked-types t backend o w n h =
      added-types t (lookup t w.client.sync_pools) (make_pool getenv config t o) w.entries n h

  closed-types :
      (w : World) (n : ℕ) {u : String}
      → get_elem? (types w) n ≡ some u
      → get_elem? (types (close_pools getenv config env heartbeat_interval policy serializer w)) n
        ≡ some u
  unfolding close_pools
  closed-types w n h = rw (stop_each-types w.client.sync_pools w.entries) h

  -- Numbers stay those of the same message types.
  Step-types :
      {w v : World} (n : ℕ) {t : String}
      → ClientStep getenv config env heartbeat_interval policy serializer w v
      → get_elem? (types w) n ≡ some t
      → get_elem? (types v) n ≡ some t
  Step-types {w} n (asks t backend o e) h = rw e (asked-types t backend o w n h)
  Step-types {w} n (uses p what e at room q) h = rw q (
      rw
        (map-modify_at (λ (e : Entry). e.message_type) (Used p what) (used-message_type p what)
          (pool_of p) w.entries)
        h)
  Step-types {w} n (runs m e u at step q) h = rw q (
      rw
        (map-modify_at (λ (e : Entry). e.message_type) (λ (e : Entry). record e { system = u })
          (λ e. refl) m w.entries)
        h)
  Step-types {w} n (closes e) h = rw e (closed-types w n h)

  pub Reach-types :
      {w v : World} (n : ℕ) {t : String}
      → ClientReach getenv config env heartbeat_interval policy serializer w v
      → get_elem? (types w) n ≡ some t
      → get_elem? (types v) n ≡ some t
  Reach-types n here h = h
  Reach-types n (next r step) h = Step-types n step (Reach-types n r h)
