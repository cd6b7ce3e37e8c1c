-- ===== src/CallRcu/Tests.antt =====
-- Threads and structures of `call_rcu` at concrete runs.
use userspace_rcu.Prelude.{ℕ, ◌≡◌, refl, false, List, [], ◌∷◌, ◌++◌, replicate, length, ◌≤◌}
use userspace_rcu.CallRcu.Thread.{
  wait, Event, run_thread, go, queue, ask_stop, thread_step, waker_step, begin, step, run,
  call_rcu_data_init,
}
use userspace_rcu.CallRcu.WakeUp.{asleep-is_woken}
use userspace_rcu.CallRcu.Order.{batch, run-settled}

-- The thread finds nothing to do and sleeps; thread 1 queues callback 7 to it.
abbrev queued_late : List Event
queued_late = replicate 8 run_thread ++ queue 1 7 ∷ []

asleep-is_woken_example :
    (i : ℕ) × ((run (replicate 4 (go i)) (run queued_late (call_rcu_data_init false))).place ≡ wait)
unfolding run step thread_step waker_step begin
asleep-is_woken_example = asleep-is_woken false queued_late refl refl

-- It runs the callback, and another is queued meanwhile.
abbrev invoked_one : List Event
invoked_one = queued_late ++ replicate 4 (go 1) ++ replicate 7 run_thread ++ queue 2 9 ∷ []

run-settled_example :
    let s = run invoked_one (call_rcu_data_init false) in
    (s.queued ≡ s.invoked ++ (batch s.place ++ s.cbs))
    × (length s.invoked ≤ s.settled)
    × (s.settled ≤ length s.queued)
run-settled_example = run-settled false invoked_one

invoked_first : (run invoked_one (call_rcu_data_init false)).invoked ≡ 7 ∷ []
unfolding run step thread_step waker_step begin
invoked_first = refl

abbrev asked : List Event
asked = queue 1 7 ∷ ask_stop 2 ∷ run_thread ∷ []
