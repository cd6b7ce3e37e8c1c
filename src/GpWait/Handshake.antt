-- ===== src/GpWait/Handshake.antt =====
-- The waiter returns after the waker's last access of the node, and is woken.
use userspace_rcu.Prelude.{◌≡◌, refl, Bool, true, false, not, List, [], ◌∷◌, arith, replicate}
use userspace_rcu.GpWait.Node.{
  Waiter, spin, check, futex_wait, asleep, set_running, await_teardown, poll_teardown,
  assert_teardown, returned, Waker, working, assert_waiting, set_wakeup, load_running, futex_wake,
  set_teardown, finished, State, wait_step, wake_step, Event, waiter_goes, waker_goes, interrupt,
  step, urcu_wait_node_init, woken, run,
}

-- before the waiter has left the second loop
abbrev pub is_in_loops : Waiter → Bool
is_in_loops (spin i) = true
is_in_loops check = true
is_in_loops futex_wait = true
is_in_loops asleep = true
is_in_loops _ = false

-- after the store of URCU_WAIT_RUNNING
abbrev pub is_running : Waiter → Bool
is_running (await_teardown i) = true
is_running poll_teardown = true
is_running assert_teardown = true
is_running returned = true
is_running _ = false

-- after the load that ends the fourth loop
abbrev pub is_done : Waiter → Bool
is_done assert_teardown = true
is_done returned = true
is_done _ = false

abbrev pub is_asleep : Waiter → Bool
is_asleep asleep = true
is_asleep _ = false

-- before the store of URCU_WAIT_WAKEUP
abbrev pub is_before_wakeup : Waker → Bool
is_before_wakeup working = true
is_before_wakeup assert_waiting = true
is_before_wakeup set_wakeup = true
is_before_wakeup _ = false

abbrev pub is_before_wake : Waker → Bool
is_before_wake load_running = true
is_before_wake futex_wake = true
is_before_wake w = is_before_wakeup w

abbrev pub is_finished : Waker → Bool
is_finished finished = true
is_finished _ = false

-- the state in terms of the two places
pub record Inv (s : State) : Type 0 where
  pub wakeup : s.wakeup ≡ not (is_before_wakeup s.waker)
  pub running : s.running ≡ is_running s.waiter
  pub teardown : s.teardown ≡ is_finished s.waker
  pub left : is_in_loops s.waiter ≡ false → is_before_wakeup s.waker ≡ false
  pub done : is_done s.waiter ≡ true → is_finished s.waker ≡ true
  pub asleep : is_asleep s.waiter ≡ true → is_before_wake s.waker ≡ true
  pub asserted : s.asserted ≡ false

wait_step-Inv : (w : Waiter) (s : State) → s.waiter ≡ w → Inv s → Inv (wait_step w s)
unfolding wait_step
wait_step-Inv (spin i) s e v = ground arith
wait_step-Inv check s e v = ground arith
wait_step-Inv futex_wait s e v = ground arith
wait_step-Inv asleep s e v = v
wait_step-Inv set_running s e v = ground arith
wait_step-Inv (await_teardown i) s e v = ground arith
wait_step-Inv poll_teardown s e v = ground arith
wait_step-Inv assert_teardown s e v = ground arith
wait_step-Inv returned s e v = v

running-left : (w : Waiter) → is_running w ≡ true → is_in_loops w ≡ false
running-left (spin i) e = ground arith
running-left check e = ground arith
running-left futex_wait e = ground arith
running-left asleep e = ground arith
running-left set_running e = refl
running-left (await_teardown i) e = refl
running-left poll_teardown e = refl
running-left assert_teardown e = refl
running-left returned e = refl

woken_lem :
    (w : Waiter)
    → (is_running (woken w) ≡ is_running w)
      × (is_in_loops (woken w) ≡ is_in_loops w)
      × (is_done (woken w) ≡ is_done w)
      × (is_asleep (woken w) ≡ false)
woken_lem (spin i) = (refl, refl, refl, refl)
woken_lem check = (refl, refl, refl, refl)
woken_lem futex_wait = (refl, refl, refl, refl)
woken_lem asleep = (refl, refl, refl, refl)
woken_lem set_running = (refl, refl, refl, refl)
woken_lem (await_teardown i) = (refl, refl, refl, refl)
woken_lem poll_teardown = (refl, refl, refl, refl)
woken_lem assert_teardown = (refl, refl, refl, refl)
woken_lem returned = (refl, refl, refl, refl)

woken-Inv : (s : State) → Inv s → Inv (record s { waiter = woken s.waiter })
woken-Inv s v = ground (arith, woken_lem s.waiter)

wake_step-Inv : (k : Waker) (s : State) → s.waker ≡ k → Inv s → Inv (wake_step k s)
unfolding wake_step
wake_step-Inv working s e v = ground arith
wake_step-Inv assert_waiting s e v = ground (arith, running-left s.waiter)
wake_step-Inv set_wakeup s e v = ground (arith, running-left s.waiter)
wake_step-Inv load_running s e v = ground arith
wake_step-Inv futex_wake s e v = ground (arith, woken_lem s.waiter)
wake_step-Inv set_teardown s e v = ground arith
wake_step-Inv finished s e v = v

step-Inv : (e : Event) (s : State) → Inv s → Inv (step e s)
unfolding step
step-Inv waiter_goes s v = wait_step-Inv s.waiter s refl v
step-Inv waker_goes s v = wake_step-Inv s.waker s refl v
step-Inv interrupt s v = woken-Inv s v

pub run-Inv : (es : List Event) (s : State) → Inv s → Inv (run es s)
unfolding run
run-Inv [] s v = v
run-Inv (e ∷ es) s v = run-Inv es (step e s) (step-Inv e s v)

pub init-Inv : Inv urcu_wait_node_init
init-Inv = ground arith

pub Reached-Inv : (es : List Event) → Inv (run es urcu_wait_node_init)
Reached-Inv es = run-Inv es _ init-Inv

returned_after : (s : State) → Inv s → s.waiter ≡ returned → s.waker ≡ finished
returned_after s v e = finished_of s.waker (v.done (rw e refl))
  where
    finished_of : (k : Waker) → is_finished k ≡ true → k ≡ finished
    finished_of working d = ground arith
    finished_of assert_waiting d = ground arith
    finished_of set_wakeup d = ground arith
    finished_of load_running d = ground arith
    finished_of futex_wake d = ground arith
    finished_of set_teardown d = ground arith
    finished_of finished d = refl

-- In every interleaving `urcu_adaptative_busy_wait` returns, so that its caller frees the node, only
-- after the last access of `urcu_adaptative_wake_up` to it, and no assertion of the two has failed.
pub busy_wait-outlives :
    (es : List Event)
    → ((run es urcu_wait_node_init).waiter ≡ returned
        → (run es urcu_wait_node_init).waker ≡ finished)
      × ((run es urcu_wait_node_init).asserted ≡ false)
busy_wait-outlives es = (returned_after _ (Reached-Inv es), (Reached-Inv es).asserted)

-- In every interleaving, while the waiter sleeps in FUTEX_WAIT the waker still has its FUTEX_WAKE
-- before it.
pub asleep-has_waker :
    (es : List Event)
    → (run es urcu_wait_node_init).waiter ≡ asleep
    → is_before_wake (run es urcu_wait_node_init).waker ≡ true
asleep-has_waker es e = (Reached-Inv es).asleep (rw e refl)

finished-returns :
    (w : Waiter) (s : State)
    → s.waiter ≡ w
    → Inv s
    → s.waker ≡ finished
    → (run (replicate 5 waiter_goes) s).waiter ≡ returned
unfolding run step wait_step
finished-returns (spin i) s e v f = ground arith
finished-returns check s e v f = ground arith
finished-returns futex_wait s e v f = ground arith
finished-returns asleep s e v f = ground arith
finished-returns set_running s e v f = ground arith
finished-returns (await_teardown i) s e v f = ground arith
finished-returns poll_teardown s e v f = ground arith
finished-returns assert_teardown s e v f = ground arith
finished-returns returned s e v f = ground arith

-- Once the waker has finished, in whatever order the two came there, five steps of the waiter bring
-- it to its return.
pub busy_wait-returns :
    (es : List Event)
    → (run es urcu_wait_node_init).waker ≡ finished
    → (run (replicate 5 waiter_goes) (run es urcu_wait_node_init)).waiter ≡ returned
busy_wait-returns es f = finished-returns _ _ refl (Reached-Inv es) f
