-- ===== src/DeadLettering/Config.antt =====
-- What `resolve_dead_lettering_config` gives for any destination at all.
use rabbitmq_pika_adapter.Prelude.{ℕ, List, String, ◌≡◌, ◌⊎◌, Option, arith, text_eq_sound}
use rabbitmq_pika_adapter.Prelude.Int.{ℤ, pos, ◌≤ℤ◌}
use rabbitmq_pika_adapter.Value.{Value, Fields, int, integer, get_or}
use rabbitmq_pika_adapter.DeadLettering.{
  DeadLetteringConfig, requeue, dead_letter, known_mode, at_least_one, mode_text,
  resolve_queue_arguments, resolve_dead_lettering_config,
}

pub record IsValid (c : DeadLetteringConfig) : Type 0 where
  pub mode : (c.on_error ≡ requeue) ⊎ (c.on_error ≡ dead_letter)
  pub threshold : pos 1 ≤ℤ c.max_retries

known_mode_cases : (m : List ℕ) → (known_mode m ≡ requeue) ⊎ (known_mode m ≡ dead_letter)
known_mode_cases m = ground (arith, text_eq_sound m requeue, text_eq_sound m dead_letter)

one-le-at_least_one : (n : Option ℤ) → pos 1 ≤ℤ at_least_one n
one-le-at_least_one n = ground arith

-- Whatever the destination holds, the mode is one of the two known ones and the threshold is at
-- least one.
pub resolve_dead_lettering_config-IsValid :
    (render : Value → String) (destination : Fields)
    → IsValid (resolve_dead_lettering_config render destination)
unfolding resolve_dead_lettering_config
resolve_dead_lettering_config-IsValid render destination = record {
  mode = known_mode_cases (mode_text render (resolve_queue_arguments destination));
  threshold =
      one-le-at_least_one
        (int (get_or "max_retries" (integer (pos 1)) (resolve_queue_arguments destination)));
}
