-- ===== src/AsyncListener/Construction.antt =====
-- The constructor of `AsyncListener` in src/mq_adapters/async_adapter.py.
use rabbitmq_pika_adapter.Prelude.{String, Bool, ◌≡◌, refl, Option}
use rabbitmq_pika_adapter.Prelude.Int.{ℤ}
use rabbitmq_pika_adapter.Outcome.{Outcome, ok, raised, along_ok}
use rabbitmq_pika_adapter.Value.{Value, Fields}
use rabbitmq_pika_adapter.PublisherPool.{Config, resolve_destination}
use rabbitmq_pika_adapter.AsyncConnection.Construction.{
  source_of, async_destination, async_destination-found,
}
use rabbitmq_pika_adapter.AsyncListener.World.{Settings}
use rabbitmq_pika_adapter.AsyncListener.Lifecycle.{max_concurrency}

pub record Options : Type 0 where
  pub predefined_queue : Bool
  pub prefetch_count : ℤ
  pub auto_ack : Bool
  pub max_concurrency : Option ℤ

-- A destination that is no dict is noticed only by `start`. `render` is `str`.
pub record Made : Type 0 where
  pub destination : Value
  pub settings : (Value → String) → Fields → Settings

module _ (installed : Bool) where
  abbrev pub made : Config → Options → Outcome Value → Outcome Made
  made c o (raised e) = raised e
  made c o (ok destination) = ok (record {
    destination = destination;
    settings = λ render d. record {
      source = source_of c;
      predefined_queue = o.predefined_queue;
      prefetch_count = o.prefetch_count;
      max_concurrency = max_concurrency o.max_concurrency o.prefetch_count;
      auto_ack = o.auto_ack;
      destination = d;
      render = render;
    };
  })

  -- `__init__`
  unfoldable pub make_async_listener : Config → String → Options → Outcome Made
  unfolding async_destination max_concurrency
  make_async_listener c message_type o = made c o (async_destination installed c message_type)

  made-found :
      (c : Config) (o : Options) (d : Outcome Value) {m : Made}
      → made c o d ≡ ok m
      → (d ≡ ok m.destination)
        × ((render : Value → String) (f : Fields) → (m.settings render f).destination ≡ f)
  made-found c o (raised e) h = absurd (cc)
  made-found c o (ok v) h =
      along_ok
        (λ (m : Made).
          ◌≡◌ {A = Outcome Value} (ok v) (ok m.destination)
          × ((render : Value → String) (f : Fields) → (m.settings render f).destination ≡ f))
        h (refl, λ render f. refl)

  pub make_async_listener-found :
      (c : Config) (message_type : String) (o : Options) {m : Made}
      → make_async_listener c message_type o ≡ ok m
      → resolve_destination c message_type ≡ ok m.destination
  unfolding make_async_listener
  make_async_listener-found c message_type o h =
      async_destination-found installed c message_type
        (made-found c o (async_destination installed c message_type) h).0
