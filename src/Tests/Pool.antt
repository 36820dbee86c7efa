-- ===== src/Tests/Pool.antt =====
-- A run of a publisher pool and its backend.
use rabbitmq_pika_adapter.Prelude.{ℕ, ◌≡◌, refl, none, some, List, [], ◌∷◌, arith, inr}
use rabbitmq_pika_adapter.Outcome.{external, Outcome, ok, raised}
use rabbitmq_pika_adapter.Value.{null}
use rabbitmq_pika_adapter.Serializer.{Message, text, bytes, other, default_serializer}
use rabbitmq_pika_adapter.Retry.{delay_for_attempt}
use rabbitmq_pika_adapter.Backend.World.{Settings}
use rabbitmq_pika_adapter.Backend.{is_full, request, publish, head_phase, get_phase, add_channel}
use rabbitmq_pika_adapter.Backend as Backend
use rabbitmq_pika_adapter.Backend.Threads.{System, passes_head, gets_item, initial}
use rabbitmq_pika_adapter.PublisherPool.Operations.{
  backend_settings, start, send, PoolReach, here, next, starts, sends, backend_steps,
}
use rabbitmq_pika_adapter.Tests.Clock.{whole_seconds, policy}
use rabbitmq_pika_adapter.Tests.Backend.{working}
use rabbitmq_pika_adapter.Tests.Client.{pool}

-- Values that are no text cannot be serialized here.
abbrev pub serializer : Message → Outcome (List ℕ)
serializer = default_serializer (λ s. ok (104 ∷ 105 ∷ [])) (λ v. raised (external 7))

serialized :
    (serializer (bytes (1 ∷ [])) ≡ ok (1 ∷ []))
    × (serializer (text "hi") ≡ ok (104 ∷ 105 ∷ []))
    × (serializer (other null) ≡ raised (external 7))
unfolding default_serializer
serialized = (refl, refl, refl)

abbrev pub settings : Settings whole_seconds
settings = backend_settings 5 (policy none) pool

-- One text is sent with a key and one value cannot be; then the pool starts, and its thread takes the text.
abbrev sent : System
sent = record initial {
  backend =
      (start working settings serializer
        (send working settings serializer (text "hi") (some "late") initial.backend).1).1;
  accepted = request working settings (104 ∷ 105 ∷ []) (some "late") ∷ [];
}

abbrev taken : System
taken = record sent {
  backend = get_phase working settings (head_phase working settings sent.backend);
}

sent-PoolReach : PoolReach working settings serializer initial sent
unfolding initial is_full backend_settings send start default_serializer publish Backend.start
sent-PoolReach =
    next
      (next (next here (sends (text "hi") (some "late") refl refl))
        (sends (other null) none refl refl))
      (starts refl)

taken-PoolReach : PoolReach working settings serializer initial taken
unfolding get_phase head_phase Backend.start start send publish initial add_channel
    delay_for_attempt backend_settings default_serializer
taken-PoolReach =
    next (next sent-PoolReach (backend_steps (passes_head refl refl)))
      (backend_steps (gets_item refl (inr (omega arith)) refl))
