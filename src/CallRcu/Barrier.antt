-- ===== src/CallRcu/Barrier.antt =====
-- `rcu_barrier` and `_rcu_barrier_complete` of src/urcu-call-rcu-impl.h: one `struct
-- call_rcu_completion`, the thread that waits for it and the threads that invoke its works.
-- Each step goes up to the next access of the completion.
use userspace_rcu.Prelude.{
  ℕ, ◌+◌, Bool, false, ◌||◌, List, [], ◌∷◌, ◌==◌, if◌then◌else◌, has, update, length, sub_word,
}
use userspace_rcu.CallRcu.Thread.{minus_one, decrement}

-- Where `rcu_barrier` stands in its last loop.
pub data Place : Type 0 where
  arm : Place  -- before the decrement of the futex
  test : Place  -- before the load of `barrier_count`
  wait : Place  -- in `call_rcu_completion_wait`, before the load of the futex
  call : Place  -- before FUTEX_WAIT
  asleep : Place
  put : Place  -- before `urcu_ref_put`
  returned : Place

-- Where a work stands.
pub data Work : Type 0 where
  queued : Work
  looking : Work  -- in `call_rcu_completion_wake_up`, before the load of the futex
  resetting : Work
  calling : Work  -- before FUTEX_WAKE
  putting : Work  -- before `urcu_ref_put`
  done : Work  -- freed

-- `freed` is whether the completion is, and `misused` whether it has been used since.
pub record State : Type 0 where
  pub barrier_count : ℕ
  pub futex : ℕ
  pub ref : ℕ
  pub place : Place
  pub work : ℕ → Work
  pub freed : Bool
  pub misused : Bool

-- an access of the completion
abbrev pub touch : State → State
touch s = record s { misused = s.misused || s.freed }

-- `urcu_ref_put` with `free_completion`
abbrev pub ref_put : State → State
ref_put s =
    let r = sub_word s.ref 1 in
    record s { ref = r; freed = s.freed || (r == 0); misused = s.misused || s.freed }

unfoldable pub barrier_step : Place → State → State
barrier_step arm s = record (touch s) { futex = decrement s.futex; place = test }
barrier_step test s = record (touch s) { place = if s.barrier_count == 0 then put else wait }
barrier_step wait s = record (touch s) { place = if s.futex == minus_one then call else arm }
barrier_step call s = record (touch s) { place = if s.futex == minus_one then asleep else arm }
barrier_step asleep s = s
barrier_step put s = record (ref_put s) { place = returned }
barrier_step returned s = s

abbrev pub woken : Place → Place
woken asleep = wait
woken p = p

abbrev pub set_work : ℕ → Work → State → State
set_work i w s = record s { work = update s.work i w }

-- `_rcu_barrier_complete` for the work of structure `i`
unfoldable pub work_step : ℕ → Work → State → State
work_step i queued s =
    let c = decrement s.barrier_count in
    set_work i (if c == 0 then looking else putting) (record (touch s) { barrier_count = c })
work_step i looking s = set_work i (if s.futex == minus_one then resetting else putting) (touch s)
work_step i resetting s = set_work i calling (record (touch s) { futex = 0 })
work_step i calling s = set_work i putting (record s { place = woken s.place })
work_step i putting s = set_work i done (ref_put s)
work_step i done s = s

pub data Event : Type 0 where
  barrier : Event
  interrupt : Event
  complete : ℕ → Event

unfoldable pub step : Event → State → State
unfolding barrier_step work_step
step barrier s = barrier_step s.place s
step interrupt s = record s { place = woken s.place }
step (complete i) s = work_step i (s.work i) s

unfoldable pub run : List Event → State → State
run [] s = s
run (e ∷ es) s = run es (step e s)

-- The completion behind the second loop of `rcu_barrier`, which queues a work to each structure of
-- `call_rcu_data_list`.
abbrev pub queue_works : (call_rcu_data_list : List ℕ) → State
queue_works l = record {
  barrier_count = length l;
  futex = 0;
  ref = length l + 1;
  place = arm;
  work = λ i. if has i l then queued else done;
  freed = false;
  misused = false;
}
