-- ===== src/Stats/Counting.antt =====
-- What a run of `Stats.inc` calls adds up to, in whatever order the threads get the lock.
use mathlib.Core.List.{Perm, Permᴰ}
use mathlib.Core.Logic.{∥∥₁_elim, ite, if_pos, if_neg}
use rabbitmq_pika_adapter.Prelude.{
  String, ◌≡◌, refl, ◌≢◌, Option, none, some, List, [], ◌∷◌, arith, sym, ap, ◌∙◌,
}
use rabbitmq_pika_adapter.Prelude.Int.{ℤ, pos, ◌+ℤ◌, +ℤ_assoc, +ℤ_zero, +ℤ_left_comm, ℤ-set}
use rabbitmq_pika_adapter.Stats.{
  Counter, published, StatsSnapshot, counter_name, counter_of, read, write, inc_at, inc, run_incs,
  else_keep,
}

pub Counter-discrete : Discrete Counter
Counter-discrete = hlevel

-- What one call adds to counter `c`, if its name is that of the counter `d`.
pub share : Counter → Option Counter → ℤ → ℤ
share c none value = pos 0
share c (some d) value = ite (Counter-discrete c d) value (pos 0)

-- The sum of what the calls add to counter `c`.
pub total : Counter → List (String × ℤ) → ℤ
total c [] = pos 0
total c ((name, value) ∷ rest) = share c (counter_of name) value +ℤ total c rest

read-write_self : (c : Counter) (v : ℤ) (s : StatsSnapshot) → read c (write c v s) ≡ v
unfolding read write
read-write_self c v s = ground arith

read-write_ne :
    (c d : Counter) (v : ℤ) (s : StatsSnapshot) → c ≢ d → read c (write d v s) ≡ read c s
unfolding read write
read-write_ne c d v s h = ground arith

read-inc_at :
    (c : Counter) (d : Option Counter) (value : ℤ) (s : StatsSnapshot)
    → read c (else_keep (inc_at d value s) s) ≡ read c s +ℤ share c d value
unfolding inc_at share
read-inc_at c none value s = sym (+ℤ_zero (read c s))
read-inc_at c (some d) value s = elim (Counter-discrete c d) [
  | yes same ↦ rw (if_pos (Counter-discrete c d) same, same, read-write_self d) refl
  | no other ↦
      rw (if_neg (Counter-discrete c d) other, read-write_ne c d _ s other)
        (sym (+ℤ_zero (read c s)))
]

-- After any run of `inc` calls each counter has moved by the sum of the values given for its name.
pub read-run_incs :
    (c : Counter) (calls : List (String × ℤ)) (s : StatsSnapshot)
    → read c (run_incs calls s) ≡ read c s +ℤ total c calls
unfolding run_incs total inc
read-run_incs c [] s = sym (+ℤ_zero (read c s))
read-run_incs c ((name, value) ∷ rest) s =
    rw
      (
        read-run_incs c rest (else_keep (inc name value s) s),
        read-inc_at c (counter_of name) value s,
      )
      (+ℤ_assoc (read c s) (share c (counter_of name) value) (total c rest))

total-permᴰ : (c : Counter) {xs ys : List (String × ℤ)} → Permᴰ xs ys → total c xs ≡ total c ys
unfolding total
total-permᴰ c Permᴰ.nil = refl
total-permᴰ c (Permᴰ.cons e p) = cc (e, total-permᴰ c p)
total-permᴰ c (Permᴰ.swap {a' = x} {b' = y} {l = l} e f) =
    rw (e, f)
      (+ℤ_left_comm (share c (counter_of y.0) y.1) (share c (counter_of x.0) x.1) (total c l))
total-permᴰ c (Permᴰ.trans p q) = total-permᴰ c p ∙ total-permᴰ c q

total-perm : (c : Counter) {xs ys : List (String × ℤ)} → Perm xs ys → total c xs ≡ total c ys
total-perm c p = ∥∥₁_elim p (ℤ-set _ _) (total-permᴰ c)

-- The order in which the threads get the lock does not matter for the counters at the end.
pub run_incs-perm :
    {xs ys : List (String × ℤ)} (c : Counter) (s : StatsSnapshot)
    → Perm xs ys
    → read c (run_incs xs s) ≡ read c (run_incs ys s)
run_incs-perm {xs} {ys} c s p =
    rw (read-run_incs c xs s, read-run_incs c ys s) (ap (λ t. read c s +ℤ t) (total-perm c p))

-- A call that names no counter raises; one that names a counter adds to it alone.
pub inc-counter_name :
    (c : Counter) (value : ℤ) (s : StatsSnapshot)
    → inc (counter_name c) value s ≡ some (write c (read c s +ℤ value) s)
unfolding inc counter_name
inc-counter_name published value s = refl
inc-counter_name _ value s = refl
