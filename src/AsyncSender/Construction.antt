-- ===== src/AsyncSender/Construction.antt =====
-- The constructor of `AsyncSender` in src/mq_adapters/async_adapter.py.
use rabbitmq_pika_adapter.Prelude.{ℕ, String, Bool, ◌≡◌, refl}
use rabbitmq_pika_adapter.Prelude.Int.{ℤ, nonneg}
use rabbitmq_pika_adapter.Outcome.{Outcome, ok, raised, along_ok}
use rabbitmq_pika_adapter.Value.{Value, Fields}
use rabbitmq_pika_adapter.Retry.Floats.{Seconds}
use rabbitmq_pika_adapter.PublisherPool.{Config, resolve_destination}
use rabbitmq_pika_adapter.AsyncConnection.Construction.{
  source_of, async_destination, async_destination-found,
}
use rabbitmq_pika_adapter.AsyncSender.World.{Settings}

-- `confirm_flush_interval` is a float, of which only `> 0` matters.
pub record Options (s : Seconds) : Type 0 where
  pub confirm_delivery : Bool
  pub confirm_batch_size : ℤ
  pub confirm_flush_interval : s.T
  pub max_attempts : ℕ
  pub base_delay : s.T
  pub max_delay : s.T
  pub multiplier : s.T
  pub jitter : s.T

-- A destination that is no dict is noticed only by `start`.
pub record Made (s : Seconds) : Type 0 where
  pub destination : Value
  pub settings : Fields → Settings s

module _ {s : Seconds} (installed : Bool) where
  abbrev pub made : Config → Options s → Outcome Value → Outcome (Made s)
  made c o (raised e) = raised e
  made c o (ok destination) = ok (record {
    destination = destination;
    settings = λ d. record {
      source = source_of c;
      destination = d;
      confirm_delivery = o.confirm_delivery;
      confirm_batch_size = nonneg o.confirm_batch_size;
      flushes_periodically = s.ltb s.nought o.confirm_flush_interval;
      max_attempts = o.max_attempts;
      base_delay = o.base_delay;
      max_delay = o.max_delay;
      multiplier = o.multiplier;
      jitter = o.jitter;
    };
  })

  -- `__init__`
  unfoldable pub make_sender : Config → String → Options s → Outcome (Made s)
  unfolding async_destination
  make_sender c message_type o = made c o (async_destination installed c message_type)

  made-found :
      (c : Config) (o : Options s) (d : Outcome Value) {m : Made s}
      → made c o d ≡ ok m
      → (d ≡ ok m.destination) × ((f : Fields) → (m.settings f).destination ≡ f)
  made-found c o (raised e) h = absurd (cc)
  made-found c o (ok v) h =
      along_ok
        (λ (m : Made s).
          ◌≡◌ {A = Outcome Value} (ok v) (ok m.destination)
          × ((f : Fields) → (m.settings f).destination ≡ f))
        h (refl, λ f. refl)

  pub make_sender-found :
      (c : Config) (message_type : String) (o : Options s) {m : Made s}
      → make_sender c message_type o ≡ ok m
      → (resolve_destination c message_type ≡ ok m.destination)
        × ((f : Fields) → (m.settings f).destination ≡ f)
  unfolding make_sender
  make_sender-found c message_type o h =
      let (found, kept) = made-found c o (async_destination installed c message_type) h in
      (async_destination-found installed c message_type found, kept)
