-- ===== src/GpWait/Queue.antt =====
-- The calls of `synchronize_rcu` of src/urcu.c, any number of them at once, and their queue
-- `gp_waiters` of src/urcu-wait.h. One call is the first in the queue: it takes `rcu_gp_lock`, moves
-- the queue into its local one, waits for the readers and wakes the others.
use userspace_rcu.Prelude.{
  ℕ, ◌+◌, Bool, true, false, if◌then◌else◌, Option, none, some, List, [], ◌∷◌, has, is_empty,
  update,
}

-- Where a call stands; `batch` is what is left of its local queue.
pub data Place : Type 0 where
  outside : Place
  waiting : Place  -- in `urcu_adaptative_busy_wait`
  leading : Place  -- before `urcu_wait_set_state`
  locking : Place  -- before `mutex_lock(&rcu_gp_lock)`
  moving : Place  -- before `urcu_move_waiters`
  starting : (batch : List ℕ) → Place  -- before the wait for the readers
  grace : (batch : List ℕ) → Place  -- inside of it
  unlocking : (batch : List ℕ) → Place
  waking : (batch : List ℕ) → Place  -- in `urcu_wake_all_waiters`
  returned : Place

-- Whose the node of a call is; not in the code.
pub data Owner : Type 0 where
  nobody : Owner
  in_queue : Owner
  of : (leader : ℕ) → Owner

-- `running` and `woken` are the state of a call's node. Not in the code are the numbers of grace
-- periods that have `started` and `ended`, for each call how many had started when it was queued
-- (`since`), and the owners.
pub record State : Type 0 where
  pub queue : List ℕ
  pub lock : Option ℕ
  pub place : ℕ → Place
  pub running : ℕ → Bool
  pub woken : ℕ → Bool
  pub started : ℕ
  pub ended : ℕ
  pub since : ℕ → ℕ
  pub owner : ℕ → Owner

abbrev pub set_place : ℕ → Place → State → State
set_place i p s = record s { place = update s.place i p }

abbrev pub is_resting : Place → Bool
is_resting outside = true
is_resting returned = true
is_resting _ = false

-- `urcu_wait_add` of a new node, whose result tells whether the queue was empty
unfoldable pub begin : ℕ → State → State
begin i s = record s {
  queue = i ∷ s.queue;
  place = update s.place i (if is_empty s.queue then leading else waiting);
  running = update s.running i false;
  woken = update s.woken i false;
  since = update s.since i s.started;
  owner = update s.owner i in_queue;
}

-- one turn of `urcu_wake_all_waiters`: a node that is running is not woken.
unfoldable pub wake_one : ℕ → State → State
wake_one j s = record s {
  woken = if s.running j then s.woken else update s.woken j true;
  owner = update s.owner j nobody;
}

-- `mutex_lock(&rcu_gp_lock)`, where the first argument is its holder
unfoldable pub take_lock : Option ℕ → ℕ → State → State
take_lock none i s = set_place i moving (record s { lock = some i })
take_lock (some k) i s = s

-- the next step of a call
unfoldable pub call_step : ℕ → Place → State → State
unfolding wake_one take_lock
call_step i outside s = s
call_step i waiting s = set_place i (if s.woken i then returned else waiting) s
call_step i leading s = set_place i locking (record s { running = update s.running i true })
call_step i locking s = take_lock s.lock i s
call_step i moving s = record s {
  queue = [];
  place = update s.place i (starting s.queue);
  owner = λ j. if has j s.queue then of i else s.owner j;
}
call_step i (starting batch) s = set_place i (grace batch) (record s { started = s.started + 1 })
call_step i (grace batch) s = set_place i (unlocking batch) (record s { ended = s.ended + 1 })
call_step i (unlocking batch) s = set_place i (waking batch) (record s { lock = none })
call_step i (waking []) s = set_place i returned s
call_step i (waking (j ∷ batch)) s = set_place i (waking batch) (wake_one j s)
call_step i returned s = s

-- The registry may be empty: then there is nobody to wait for, and the grace period is over at once.
unfoldable pub skip : ℕ → Place → State → State
skip i (starting batch) s =
    set_place i (unlocking batch) (record s { started = s.started + 1; ended = s.ended + 1 })
skip i p s = s

pub data Event : Type 0 where
  call : ℕ → Event  -- of `synchronize_rcu`, by a thread that is outside of it
  go : ℕ → Event
  none_registered : ℕ → Event  -- the call finds the registry empty

unfoldable pub step : Event → State → State
unfolding begin call_step skip
step (call i) s = if is_resting (s.place i) then begin i s else s
step (go i) s = call_step i (s.place i) s
step (none_registered i) s = skip i (s.place i) s

unfoldable pub run : List Event → State → State
run [] s = s
run (e ∷ es) s = run es (step e s)

abbrev pub initial : State
initial = record {
  queue = [];
  lock = none;
  place = λ i. outside;
  running = λ i. false;
  woken = λ i. false;
  started = 0;
  ended = 0;
  since = λ i. 0;
  owner = λ i. nobody;
}
