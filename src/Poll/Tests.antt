-- ===== src/Poll/Tests.antt =====
-- Polling at concrete inputs.
use userspace_rcu.Prelude.{◌≡◌, false, List, [], ◌∷◌, arith}
use userspace_rcu.Poll.{
  Worker, initial, urcu_poll_worker_cb, start_poll_synchronize_rcu, poll_state_synchronize_rcu,
  Event, start, callback, step, run, callbacks,
}
use userspace_rcu.Poll.Invariant.{IsWorker, run-IsWorker}
use userspace_rcu.Poll.Reached.{poll-iff_fresh_callback}

initial-IsWorker : IsWorker initial
initial-IsWorker = omega arith

abbrev busy : Worker
unfolding run step urcu_poll_worker_cb start_poll_synchronize_rcu
busy = run (start ∷ []) initial

abbrev history : List Event
history = start ∷ start ∷ callback ∷ start ∷ callback ∷ []

poll-iff_fresh_callback_example :
    poll_state_synchronize_rcu
      (start_poll_synchronize_rcu (run (start ∷ []) initial)).0
      (run (callback ∷ []) (start_poll_synchronize_rcu (run (start ∷ []) initial)).1)
    ≡ false
unfolding run step urcu_poll_worker_cb start_poll_synchronize_rcu callbacks
poll-iff_fresh_callback_example =
    poll-iff_fresh_callback (callback ∷ []) (run (start ∷ []) initial)
      (run-IsWorker (start ∷ []) initial-IsWorker) (omega arith)
