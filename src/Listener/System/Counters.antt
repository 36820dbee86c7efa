-- ===== src/Listener/System/Counters.antt =====
-- The counters of the listener in a run of all its threads.
use rabbitmq_pika_adapter.Prelude.{ℕ, ◌++◌, arith}
use rabbitmq_pika_adapter.Listener.Message.{Delivery}
use rabbitmq_pika_adapter.Listener.World.{Env, Settings, Listener}
use rabbitmq_pika_adapter.Listener.Accounting.{
  IsBalanced, run_job-IsBalanced, on_done-IsBalanced, offload_wrapper-IsBalanced,
}
use rabbitmq_pika_adapter.Listener.System.{
  System, run_callback, Step, deliver, callback_ends, task_done, run_scheduled, stop, Reach, here,
  next, start,
}

module _ (env : Env) (settings : Settings) where
  run_callback-IsBalanced :
      (d : Delivery) (s : Listener)
      → IsBalanced s.log
      → IsBalanced (run_callback env settings d s).log
  unfolding run_callback
  run_callback-IsBalanced d s h = ground arith

  Step-IsBalanced :
      {s t : System} → Step env settings s t → IsBalanced s.listener.log → IsBalanced t.listener.log
  Step-IsBalanced {s} (deliver d free e) h =
      rw e (offload_wrapper-IsBalanced env settings d s.listener h)
  Step-IsBalanced {s} (callback_ends d before after e e') h =
      rw e' (run_callback-IsBalanced d (record s.listener { running = before ++ after }) h)
  Step-IsBalanced {s} (task_done d r before after e e') h =
      rw e'
        (on_done-IsBalanced env settings d r (record s.listener { finished = before ++ after }) h)
  Step-IsBalanced {s} (run_scheduled job rest e e') h =
      rw e' (run_job-IsBalanced env settings job (record s.listener { scheduled = rest }) h)
  Step-IsBalanced {s} (stop e) h = rw e h

  -- Whatever the threads do, and however the calls end, the counters `acked` and `nacked` of an
  -- offloading listener are the numbers of acknowledgements and rejections that the broker got.
  pub counters_agree :
      (n : ℕ) {t : System} → Reach env settings (start n) t → IsBalanced t.listener.log
  unfolding start
  counters_agree n here = ground arith
  counters_agree n (next r step) = Step-IsBalanced step (counters_agree n r)
