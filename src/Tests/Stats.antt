-- ===== src/Tests/Stats.antt =====
-- Runs of the counters.
use rabbitmq_pika_adapter.Prelude.{String, ◌≡◌, refl, List, [], ◌∷◌, none}
use rabbitmq_pika_adapter.Prelude.Int.{ℤ, pos, ◌+ℤ◌}
use rabbitmq_pika_adapter.Stats.{acked, read, inc, fresh, run_incs}
use rabbitmq_pika_adapter.Stats.Counting.{total, read-run_incs}

abbrev calls : List (String × ℤ)
calls = ("acked", pos 1) ∷ ("nacked", pos 2) ∷ ("lost", pos 5) ∷ ("acked", pos 3) ∷ []

run-calls : read acked (run_incs calls fresh) ≡ pos 4
unfolding run_incs inc read fresh ◌+ℤ◌
run-calls = refl

inc-unknown : inc "lost" (pos 1) fresh ≡ none
unfolding inc
inc-unknown = refl

read-run_incs_example : read acked (run_incs calls fresh) ≡ read acked fresh +ℤ total acked calls
read-run_incs_example = read-run_incs acked calls fresh
