-- ===== src/Tests/Adapters.antt =====
-- The adapters that one client makes for a message type.
use rabbitmq_pika_adapter.Prelude.{refl, true, false, none}
use rabbitmq_pika_adapter.Prelude.Int.{pos}
use rabbitmq_pika_adapter.Value.{string, dict, field, end}
use rabbitmq_pika_adapter.PublisherPool.{make_pool}
use rabbitmq_pika_adapter.Session.Construction.{make_listener}
use rabbitmq_pika_adapter.AsyncConnection.{injected}
use rabbitmq_pika_adapter.AsyncConnection.Construction.{async_destination, resolve_message_type_map}
use rabbitmq_pika_adapter.AsyncSender.Construction.{make_sender}
use rabbitmq_pika_adapter.AsyncSender.Construction as Sender
use rabbitmq_pika_adapter.AsyncListener.Construction.{make_async_listener}
use rabbitmq_pika_adapter.AsyncListener.Construction as AsyncListener
use rabbitmq_pika_adapter.Client.Facade.{Shared, listener, async_publisher, async_listener}
use rabbitmq_pika_adapter.Client.Adapters.{Agree, adapters-Agree}
use rabbitmq_pika_adapter.Tests.Clock.{whole_seconds}
use rabbitmq_pika_adapter.Tests.Client.{getenv, config, options, pool, stop_pool}
use rabbitmq_pika_adapter.Tests.Session as Session
use rabbitmq_pika_adapter.Tests.AsyncSender as AsyncSender

abbrev shared : Shared
shared = record { sync_config = config; has_async_factory = true }

abbrev sender_options : Sender.Options whole_seconds
sender_options = record {
  confirm_delivery = true;
  confirm_batch_size = pos 2;
  confirm_flush_interval = 0;
  max_attempts = 2;
  base_delay = 1;
  max_delay = 30;
  multiplier = 2;
  jitter = 0;
}

abbrev listener_options : AsyncListener.Options
listener_options = record {
  predefined_queue = false;
  prefetch_count = pos 5;
  auto_ack = false;
  max_concurrency = none;
}

abbrev sender : Sender.Made whole_seconds
sender = record {
  destination =
      dict (field "exchange_name" (string "x.orders") (field "routing_key" (string "new") end));
  settings = λ d. record {
    source = injected;
    destination = d;
    confirm_delivery = true;
    confirm_batch_size = 2;
    flushes_periodically = false;
    max_attempts = 2;
    base_delay = 1;
    max_delay = 30;
    multiplier = 2;
    jitter = 0;
  };
}

abbrev async : AsyncListener.Made
async = record {
  destination =
      dict (field "exchange_name" (string "x.orders") (field "routing_key" (string "new") end));
  settings = λ render d. record {
    source = injected;
    predefined_queue = false;
    prefetch_count = pos 5;
    max_concurrency = 5;
    auto_ack = false;
    destination = d;
    render = render;
  };
}

adapters-Agree_example :
    Agree getenv shared true true stop_pool stop_pool whole_seconds AsyncSender.env pool
      Session.made sender async
unfolding make_pool listener make_listener async_publisher make_sender async_listener
    make_async_listener async_destination resolve_message_type_map
adapters-Agree_example =
    adapters-Agree getenv shared true true stop_pool stop_pool whole_seconds AsyncSender.env
      "orders" "sender" options Session.options sender_options listener_options refl refl refl refl
