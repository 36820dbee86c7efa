-- ===== src/AsyncSender/Coroutines/Interleaving/Settling.antt =====
-- What a coroutine of the sender has taken over, it awaits, each publish once.
use rabbitmq_pika_adapter.Prelude.{
  ℕ, ◌+◌, ◌≡◌, refl, ◌∙◌, Bool, true, false, List, [], ◌∷◌, arith, sum_map, sum_map-append,
  if◌then◌else◌,
}
use rabbitmq_pika_adapter.Outcome.{Outcome, ok, raised}
use rabbitmq_pika_adapter.Value.{Value}
use rabbitmq_pika_adapter.Retry.Floats.{Seconds}
use rabbitmq_pika_adapter.AsyncSender.World.{Call, Env, Settings, Sender, call}
use rabbitmq_pika_adapter.AsyncSender.{begin}
use rabbitmq_pika_adapter.AsyncSender.Confirms.{
  same, begins, confirms, awaits, times_begun, times_awaited, times_pending, once_below, call-Calls,
}
use rabbitmq_pika_adapter.AsyncSender.Coroutines.{
  Coroutine, finished, section, awaiting, then_do, if_ok, ◌then◌, returns, branches, suppressed,
  gather, flush_confirms, advance, awaits_call, changes,
}

abbrev pub count : ℕ → List ℕ → ℕ
count n ns = sum_map (same n) ns

-- Each publish was begun under a number of its own, and it has been awaited, is pending or is held, by exactly one.
pub record IsAccounted (held : ℕ → ℕ) (w : Sender) : Type 0 where
  pub begun_once : (n : ℕ) → times_begun n w ≡ once_below w.begun n
  pub accounted : (n : ℕ) → times_begun n w ≡ times_awaited n w + times_pending n w + held n

-- One task goes from holding `ns` to holding `ms`, whatever the others hold.
abbrev pub Moves : List ℕ → List ℕ → Sender → Sender → Type 0
Moves ns ms w v =
    (others : ℕ → ℕ)
    → IsAccounted (λ n. count n ns + others n) w
    → IsAccounted (λ n. count n ms + others n) v

-- The coroutine awaits exactly `ns`, and what it takes over on its way, however its calls end and whatever the
-- sender is where it goes on.
abbrev pub Settles : List ℕ → Coroutine → Type 0
Settles ns (finished r) = ns ≡ []
Settles ns (section f k) = (w : Sender) → (ms : List ℕ) × Moves ns ms w (f w) × Settles ms (k w)
Settles ns (awaiting c k) =
    (ms : List ℕ) × ((n : ℕ) → count n ns ≡ confirms n c + count n ms)
    × ((r : Outcome (Unit {0})) → Settles ms (k r))

pub stays : (ns : List ℕ) (w : Sender) → Moves ns ns w w
stays ns w others h = h

then_do-Settles :
    (m : Coroutine) (k : Outcome (Unit {0}) → Coroutine) (ns : List ℕ)
    → Settles ns m
    → ((r : Outcome (Unit {0})) → Settles [] (k r))
    → Settles ns (then_do m k)
unfolding then_do
then_do-Settles (finished r) k ns e h = rw e (h r)
then_do-Settles (section f c) k ns p h =
    λ w. let (ms, moves, rest) = p w in (ms, moves, then_do-Settles (c w) k ms rest h)
then_do-Settles (awaiting c d) k ns (ms, same_count, rest) h =
    (ms, same_count, λ r. then_do-Settles (d r) k ms (rest r) h)

if_ok-Settles : (n : Coroutine) → Settles [] n → (r : Outcome (Unit {0})) → Settles [] (if_ok n r)
if_ok-Settles n h (ok u) = h
if_ok-Settles n h (raised e) = refl

-- Nothing is held where it begins, and it settles what it takes over.
pub record IsSettling (c : Coroutine) : Type 0 where
  pub settles : Settles [] c

pub ends : (r : Outcome (Unit {0})) → IsSettling (finished r)
ends r = record { settles = refl }

pub then-IsSettling : (m n : Coroutine) → IsSettling m → IsSettling n → IsSettling (m then n)
then-IsSettling m n p q = record {
  settles = then_do-Settles m (if_ok n) [] p.settles (if_ok-Settles n q.settles);
}

pub then_do-IsSettling :
    (m : Coroutine) (k : Outcome (Unit {0}) → Coroutine)
    → IsSettling m
    → ((r : Outcome (Unit {0})) → IsSettling (k r))
    → IsSettling (then_do m k)
then_do-IsSettling m k p q = record {
  settles = then_do-Settles m k [] p.settles (λ r. (q r).settles);
}

pub if-IsSettling :
    (b : Bool) (m n : Coroutine) → IsSettling m → IsSettling n → IsSettling (if b then m else n)
if-IsSettling true m n p q = p
if-IsSettling false m n p q = q

pub branches-IsSettling :
    (b : Sender → Bool) (m n : Coroutine)
    → IsSettling m
    → IsSettling n
    → IsSettling (branches b m n)
branches-IsSettling b m n p q = record {
  settles = λ w. ([], stays [] w, (if-IsSettling (b w) m n p q).settles);
}

-- A section that takes nothing over.
pub quiet-IsSettling :
    (f : Sender → Sender) (r : Outcome (Unit {0}))
    → ((w : Sender) → Moves [] [] w (f w))
    → IsSettling (section f (λ w. finished r))
quiet-IsSettling f r h = record { settles = λ w. ([], h w, refl) }

pub changes-IsSettling :
    (f : Sender → Sender) → ((w : Sender) → Moves [] [] w (f w)) → IsSettling (changes f)
changes-IsSettling f h = quiet-IsSettling f (ok tt) h

pub suppressed-IsSettling : (m : Coroutine) → IsSettling m → IsSettling (suppressed m)
suppressed-IsSettling m h = then_do-IsSettling m (λ r. returns) h (λ r. ends (ok tt))

pub call-IsSettling : (c : Call) → ((n : ℕ) → confirms n c ≡ 0) → IsSettling (awaits_call c)
call-IsSettling c h = record { settles = ([], (λ n. omega (arith, h n)), λ r. refl) }

module _ {s : Seconds} (env : Env s) (settings : Settings s) where
  pub advance-Settles :
      (c : Coroutine) (ns : List ℕ) (w : Sender)
      → Settles ns c
      → let (v, d) = advance env settings c w in (ms : List ℕ) × Moves ns ms w v × Settles ms d
  unfolding advance
  advance-Settles (finished r) ns w e = (ns, stays ns w, e)
  advance-Settles (section f k) ns w p = p w
  advance-Settles (awaiting c k) ns w (ms, same_count, rest) =
      let called = call-Calls env settings c w in
      (
        ms,
        λ others h. record {
          begun_once = λ n. rw called.begun_same (called.began_same n ∙ h.begun_once n);
          accounted = λ n. rw called.pending_same (
              omega
                (arith, called.began_same n, called.awaited_more n, same_count n, h.accounted n));
        },
        rest (call env c w).0,
      )

  pub flags :
      (connection channel exchange flusher : Bool) (w : Sender)
      → Moves [] [] w (record w {
        has_connection = connection;
        has_channel = channel;
        has_exchange = exchange;
        has_flusher = flusher;
      })
  flags connection channel exchange flusher w others h = record {
    begun_once = h.begun_once;
    accounted = h.accounted;
  }

  pub gather-Settles : (ns : List ℕ) → Settles ns (gather env settings ns)
  unfolding gather
  gather-Settles [] = refl
  gather-Settles (n ∷ ns) = ([], (λ k. omega arith), λ r. refl)

  -- The publishes that were pending are held from here on.
  pub flush_confirms-IsSettling : IsSettling (flush_confirms env settings)
  unfolding flush_confirms
  flush_confirms-IsSettling = record {
    settles = λ w. (
      w.pending,
      λ others h. record {
        begun_once = h.begun_once;
        accounted = λ n. omega (arith, h.accounted n);
      },
      gather-Settles w.pending,
    );
  }

  pub begin-Moves :
      (body : List ℕ) (key : Value) (w : Sender) → Moves [] [] w (begin env settings body key w)
  unfolding begins awaits
  begin-Moves body key w others h = record {
    begun_once = λ n. ground (arith, h.begun_once n);
    accounted =
        λ n. ground (arith, h.accounted n, sum_map-append (same n) w.pending (w.begun ∷ []));
  }
