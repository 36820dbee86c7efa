-- ===== src/Listener/Keeps.antt =====
-- Proof rules for predicates of the listener that the handlers' parts keep.
use rabbitmq_pika_adapter.Prelude.{ℕ, ◌≡◌, Option, none, some, refl, if_ind}
use rabbitmq_pika_adapter.Outcome.{Outcome, ok, raised}
use rabbitmq_pika_adapter.Stats.{handler_exceptions}
use rabbitmq_pika_adapter.Listener.Message.{Delivery}
use rabbitmq_pika_adapter.Listener.World.{Env, Settings, Listener, count}
use rabbitmq_pika_adapter.Listener.{
  Handler, when_tagged, job_for, schedule, settle, on_done, release,
}

module _ (env : Env) (settings : Settings) where
  when_tagged_ind :
      (P : Listener → Type 0) (tag : Option ℕ) (f : ℕ → Handler env settings) (s : Listener)
      → (tag ≡ none → P s)
      → ((t : ℕ) → tag ≡ some t → P (f t s).1)
      → P (when_tagged env settings tag f s).1
  when_tagged_ind P none f s untagged tagged = untagged refl
  when_tagged_ind P (some t) f s untagged tagged = tagged t refl

  pub settle-keeps :
      (P : Listener → Type 0) (d : Delivery) (r : Outcome (Unit {0})) (s : Listener)
      → ((tag : ℕ)
          → d.delivery_tag ≡ some tag
          → P (schedule env settings (job_for env settings r tag d) s).1)
      → P s
      → P (settle env settings d r s).1
  unfolding settle
  settle-keeps P d r s keep h =
      if_ind (λ (m : Handler env settings). P (m s).1) settings.auto_ack (λ auto. h)
        (λ manual. when_tagged_ind P d.delivery_tag _ s (λ untagged. h) keep)

  -- `_on_done` counts a failure, settles the message and releases the permit.
  pub on_done-keeps :
      (P Q : Listener → Type 0) (d : Delivery) (r : Outcome (Unit {0})) (s : Listener)
      → P s
      → P (count handler_exceptions s).1
      → ((t : Listener) → P t → Q (release env settings (settle env settings d r t).1))
      → Q (on_done env settings d r s).1
  unfolding on_done
  on_done-keeps P Q d (ok u) s h counted finish = finish s h
  on_done-keeps P Q d (raised e) s h counted finish = finish _ counted
