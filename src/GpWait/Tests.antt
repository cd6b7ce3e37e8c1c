-- ===== src/GpWait/Tests.antt =====
-- A waiter that sleeps and is woken.
use userspace_rcu.Prelude.{◌≡◌, refl, false, List, ◌++◌, replicate}
use userspace_rcu.GpWait.Node.{
  asleep, returned, finished, Event, waiter_goes, waker_goes, run, step, wait_step,
  urcu_wait_node_init,
}
use userspace_rcu.GpWait.Handshake.{busy_wait-outlives}

-- The waiter uses up its attempts and sleeps; the waker runs to its end.
abbrev slept : List Event
slept = replicate 1002 waiter_goes ++ replicate 6 waker_goes

slept_place : (run (replicate 1002 waiter_goes) urcu_wait_node_init).waiter ≡ asleep
unfolding run step wait_step
slept_place = refl

-- The waiter of a node whose waker has finished.
abbrev full : List Event
full = slept ++ replicate 5 waiter_goes

busy_wait-outlives_example :
    ((run full urcu_wait_node_init).waiter ≡ returned
      → (run full urcu_wait_node_init).waker ≡ finished)
    × ((run full urcu_wait_node_init).asserted ≡ false)
busy_wait-outlives_example = busy_wait-outlives full
