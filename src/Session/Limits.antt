-- ===== src/Session/Limits.antt =====
-- What a listener that could be made is made of.
use rabbitmq_pika_adapter.Prelude.{
  ℕ, suc, ◌≤◌, ◌≡◌, refl, ◌∙◌, String, true, false, Option, none, some, arith,
}
use rabbitmq_pika_adapter.Prelude.Int.{ℤ, pos}
use rabbitmq_pika_adapter.Outcome.{Outcome, ok, raised}
use rabbitmq_pika_adapter.Value.{Value}
use rabbitmq_pika_adapter.PublisherPool.{
  Factory, Config, resolve_destination, resolve_factory, one_at_least,
}
use rabbitmq_pika_adapter.Session.Construction.{
  Options, Offloading, Made, given_or, offloading_of, negative, prefetch, prefetch_of, assemble,
  at_destination, make_listener,
}

module _ (getenv : String → Option String) where
  -- At most as many messages are on their way as there are permits, where the caller asks for nothing else,
  -- and what he asks for is kept.
  pub record IsLimited (o : Options) (l : Made) : Type 0 where
    pub offloads :
        o.offload ≡ true
        → (f : Offloading) × (l.offloading ≡ some f) × (1 ≤ f.workers) × (1 ≤ f.in_flight)
    pub handles_directly : o.offload ≡ false → l.offloading ≡ none
    pub by_permits :
        o.offload ≡ true
        → negative o.prefetch_size ≡ true
        → negative o.prefetch_count ≡ true
        → (f : Offloading) × (l.offloading ≡ some f)
          × (l.prefetch_settings ≡ some (prefetch (pos 0) (pos f.in_flight) o.all_channels))
    pub as_asked :
        (workers permits : ℕ)
        → o.offload ≡ true
        → o.max_workers ≡ some (pos (suc workers))
        → o.max_in_flight ≡ some (pos (suc permits))
        → l.offloading ≡ some (record { workers = suc workers; in_flight = suc permits })
    pub as_given :
        negative o.prefetch_size ≡ false
        → negative o.prefetch_count ≡ false
        → l.prefetch_settings ≡ some (prefetch o.prefetch_size o.prefetch_count o.all_channels)

  pub record IsMadeFrom (c : Config) (message_type : String) (o : Options) (l : Made) : Type 0 where
    pub found : resolve_destination c message_type ≡ ok l.destination
    pub connects : resolve_factory getenv c ≡ ok l.factory
    pub limited : IsLimited o l

  one-le-one_at_least : (n : ℤ) → 1 ≤ one_at_least n
  one-le-one_at_least n = ground arith

  module _ (o : Options) where
    -- What offloading is made of.
    abbrev asked : Offloading
    asked =
        let workers = one_at_least (given_or (pos 10) o.max_workers) in
        record {
          workers = workers;
          in_flight = one_at_least (given_or (pos workers) o.max_in_flight);
        }

    offloading_of-on : o.offload ≡ true → offloading_of o ≡ some asked
    unfolding offloading_of
    offloading_of-on on = rw on refl

    offloading_of-off : o.offload ≡ false → offloading_of o ≡ none
    unfolding offloading_of
    offloading_of-off off = rw off refl

    offloading_of-asked :
        (workers permits : ℕ)
        → o.offload ≡ true
        → o.max_workers ≡ some (pos (suc workers))
        → o.max_in_flight ≡ some (pos (suc permits))
        → offloading_of o ≡ some (record { workers = suc workers; in_flight = suc permits })
    unfolding offloading_of
    offloading_of-asked workers permits on w p = rw (on, w, p) (ground arith)

    by_permits_lem :
        (f : Offloading)
        → offloading_of o ≡ some f
        → negative o.prefetch_size ≡ true
        → negative o.prefetch_count ≡ true
        → prefetch_of o (offloading_of o) ≡ some (prefetch (pos 0) (pos f.in_flight) o.all_channels)
    unfolding prefetch_of
    by_permits_lem f h p q = rw h (ground arith)

    as_given_lem :
        (m : Option Offloading)
        → negative o.prefetch_size ≡ false
        → negative o.prefetch_count ≡ false
        → prefetch_of o m ≡ some (prefetch o.prefetch_size o.prefetch_count o.all_channels)
    unfolding prefetch_of
    as_given_lem none p q = ground arith
    as_given_lem (some f) p q = ground arith

    limited_lem :
        (l : Made)
        → l.offloading ≡ offloading_of o
        → l.prefetch_settings ≡ prefetch_of o (offloading_of o)
        → IsLimited o l
    limited_lem l e p = record {
      offloads = λ on. (
        asked,
        e ∙ offloading_of-on on,
        one-le-one_at_least (given_or (pos 10) o.max_workers),
        one-le-one_at_least (given_or (pos asked.workers) o.max_in_flight),
      );
      handles_directly = λ off. e ∙ offloading_of-off off;
      by_permits = λ on size count. (
        asked,
        e ∙ offloading_of-on on,
        p ∙ by_permits_lem asked (offloading_of-on on) size count,
      );
      as_asked = λ workers permits on w m. e ∙ offloading_of-asked workers permits on w m;
      as_given = λ size count. p ∙ as_given_lem (offloading_of o) size count;
    }

  assembled :
      (c : Config) (message_type : String) (o : Options) {l : Made} (v : Value)
      (f : Outcome Factory)
      → resolve_destination c message_type ≡ ok v
      → resolve_factory getenv c ≡ f
      → assemble getenv o v f ≡ ok l
      → IsMadeFrom c message_type o l
  assembled c message_type o v (raised e) found connects h = cc
  assembled c message_type o {l} v (ok f) found connects h = record {
    found = cc;
    connects = cc;
    limited = limited_lem o l (cc) (cc);
  }

  located :
      (c : Config) (message_type : String) (o : Options) {l : Made} (d : Outcome Value)
      → resolve_destination c message_type ≡ d
      → at_destination getenv c o d ≡ ok l
      → IsMadeFrom c message_type o l
  located c message_type o (raised e) found h = cc
  located c message_type o (ok v) found h =
      assembled c message_type o v (resolve_factory getenv c) found refl h

  pub make_listener-IsMadeFrom :
      (c : Config) (message_type : String) (o : Options) {l : Made}
      → make_listener getenv c message_type o ≡ ok l
      → IsMadeFrom c message_type o l
  unfolding make_listener
  make_listener-IsMadeFrom c message_type o h =
      located c message_type o (resolve_destination c message_type) refl h
