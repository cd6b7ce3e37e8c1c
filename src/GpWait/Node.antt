-- ===== src/GpWait/Node.antt =====
-- One `struct urcu_wait_node`, the thread that waits on it and the one that wakes it: src/urcu-wait.h.
-- Each step goes up to the next access of the node's state.
use userspace_rcu.Prelude.{ℕ, ◌+◌, Bool, true, false, not, ◌||◌, ltb, if◌then◌else◌, List, [], ◌∷◌}

-- URCU_WAIT_ATTEMPTS
abbrev pub wait_attempts : ℕ
wait_attempts = 1000

-- `urcu_adaptative_busy_wait`
pub data Waiter : Type 0 where
  spin : (i : ℕ) → Waiter  -- before the load in the first loop
  check : Waiter  -- before the load at the head of the second
  futex_wait : Waiter  -- before FUTEX_WAIT
  asleep : Waiter
  set_running : Waiter  -- at `skip_futex_wait`
  await_teardown : (i : ℕ) → Waiter  -- before the load in the third loop
  poll_teardown : Waiter  -- before the load at the head of the fourth
  assert_teardown : Waiter
  returned : Waiter  -- the node is freed

-- `urcu_adaptative_wake_up`
pub data Waker : Type 0 where
  working : Waker  -- in the grace period
  assert_waiting : Waker
  set_wakeup : Waker
  load_running : Waker
  futex_wake : Waker
  set_teardown : Waker
  finished : Waker

-- `state` is the three flags; URCU_WAIT_WAITING is none of them.
pub record State : Type 0 where
  pub wakeup : Bool
  pub running : Bool
  pub teardown : Bool
  pub asserted : Bool  -- whether an assertion has failed
  pub waiter : Waiter
  pub waker : Waker

abbrev pub is_waiting : State → Bool
is_waiting s = not (s.wakeup || s.running || s.teardown)

-- the next access of the waiter
unfoldable pub wait_step : Waiter → State → State
wait_step (spin i) s = record s {
  waiter =
      if is_waiting s
      then (if ltb (i + 1) wait_attempts then spin (i + 1) else check)
      else set_running;
}
wait_step check s = record s { waiter = if is_waiting s then futex_wait else set_running }
wait_step futex_wait s = record s { waiter = if is_waiting s then asleep else set_running }
wait_step asleep s = s
wait_step set_running s = record s { running = true; waiter = await_teardown 0 }
wait_step (await_teardown i) s = record s {
  waiter =
      if s.teardown
      then poll_teardown
      else (if ltb (i + 1) wait_attempts then await_teardown (i + 1) else poll_teardown);
}
wait_step poll_teardown s = record s {
  waiter = if s.teardown then assert_teardown else poll_teardown;
}
wait_step assert_teardown s = record s {
  asserted = s.asserted || not s.teardown;
  waiter = returned;
}
wait_step returned s = s

-- FUTEX_WAKE, or an interruption: the waiter loads the state again.
abbrev pub woken : Waiter → Waiter
woken asleep = check
woken w = w

-- the next access of the waker
unfoldable pub wake_step : Waker → State → State
wake_step working s = record s { waker = assert_waiting }
wake_step assert_waiting s = record s {
  asserted = s.asserted || not (is_waiting s);
  waker = set_wakeup;
}
wake_step set_wakeup s = record s {
  wakeup = true;
  running = false;
  teardown = false;
  waker = load_running;
}
wake_step load_running s = record s { waker = if s.running then set_teardown else futex_wake }
wake_step futex_wake s = record s { waiter = woken s.waiter; waker = set_teardown }
wake_step set_teardown s = record s { teardown = true; waker = finished }
wake_step finished s = s

pub data Event : Type 0 where
  waiter_goes : Event
  waker_goes : Event
  interrupt : Event  -- EINTR, or a wake-up by code that uses the same address

unfoldable pub step : Event → State → State
unfolding wait_step wake_step
step waiter_goes s = wait_step s.waiter s
step waker_goes s = wake_step s.waker s
step interrupt s = record s { waiter = woken s.waiter }

-- the node as `synchronize_rcu` declares it
abbrev pub urcu_wait_node_init : State
urcu_wait_node_init = record {
  wakeup = false;
  running = false;
  teardown = false;
  asserted = false;
  waiter = spin 0;
  waker = working;
}

unfoldable pub run : List Event → State → State
run [] s = s
run (e ∷ es) s = run es (step e s)
