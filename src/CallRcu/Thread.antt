-- ===== src/CallRcu/Thread.antt =====
-- One `struct call_rcu_data`: `call_rcu_thread` and `call_rcu_wait`, with the threads that queue
-- callbacks to it or set its flags and then call `wake_call_rcu_thread`.
-- Each step goes up to the next access of what they share.
use userspace_rcu.Prelude.{
  ℕ, ◌+◌, ◌-◌, ◌%◌, Bool, true, false, List, [], ◌∷◌, ◌++◌, ◌==◌, ◌^◌, if◌then◌else◌, is_empty,
  update, length, add_word, sub_word,
}

-- -1 as an int32_t
abbrev pub minus_one : ℕ
minus_one = 2 ^ 32 - 1

-- Where `call_rcu_thread` stands, with its locals that are live there.
pub data Place : Type 0 where
  enter : Place
  top : Place  -- head of `for (;;)`
  pausing : Place  -- before URCU_CALL_RCU_PAUSED is set
  paused : Place  -- before the load that waits for the end of the pause
  unpausing : Place  -- before URCU_CALL_RCU_PAUSED is cleared
  splice : Place
  synchronize : (cbs : List ℕ) → Place  -- before `synchronize_rcu`
  grace : (cbs : List ℕ) → Place  -- inside of it
  invoke : (cbcount : ℕ) → (cbs : List ℕ) → Place
  test_stop : Place
  test_empty : Place
  wait : Place  -- in `call_rcu_wait`, before the load of the futex
  call : Place  -- before FUTEX_WAIT
  asleep : Place
  again : Place  -- behind `call_rcu_wait`, before the decrement
  clear : Place  -- before the store to the futex behind the loop
  stopping : Place
  exited : Place

-- Where a thread stands that calls `_call_rcu` or `wake_call_rcu_thread`.
pub data Pc : Type 0 where
  outside : Pc
  counting : Pc  -- before `uatomic_inc(&crdp->qlen)`
  looking : Pc  -- in `call_rcu_wake_up`, before the load of the futex
  resetting : Pc  -- before the store of 0
  calling : Pc  -- before FUTEX_WAKE

-- The flags of `struct call_rcu_data` are fields. The last four fields are not in the code: the
-- callbacks queued and invoked so far, and how many were queued when the present `synchronize_rcu`,
-- and when the last one that has returned, was called.
pub record State : Type 0 where
  pub rt : Bool
  pub stop : Bool
  pub stopped : Bool
  pub pause : Bool
  pub has_paused : Bool
  pub cbs : List ℕ
  pub futex : ℕ
  pub qlen : ℕ
  pub place : Place
  pub waker : ℕ → Pc
  pub queued : List ℕ
  pub invoked : List ℕ
  pub called_at : ℕ
  pub settled : ℕ

-- uatomic_dec(&crdp->futex)
abbrev pub decrement : ℕ → ℕ
decrement f = (f + minus_one) % (2 ^ 32)

-- the next step of `call_rcu_thread`
unfoldable pub thread_step : Place → State → State
thread_step enter s = record s { futex = if s.rt then s.futex else decrement s.futex; place = top }
thread_step top s = record s { place = if s.pause then pausing else splice }
thread_step pausing s = record s { has_paused = true; place = paused }
thread_step paused s = record s { place = if s.pause then paused else unpausing }
thread_step unpausing s = record s { has_paused = false; place = splice }
thread_step splice s = record s {
  cbs = [];
  place = if is_empty s.cbs then test_stop else synchronize s.cbs;
}
thread_step (synchronize cbs) s = record s { called_at = length s.queued; place = grace cbs }
thread_step (grace cbs) s = record s { settled = s.called_at; place = invoke 0 cbs }
thread_step (invoke n []) s = record s { qlen = sub_word s.qlen n; place = test_stop }
thread_step (invoke n (c ∷ cbs)) s = record s {
  invoked = s.invoked ++ c ∷ [];
  place = invoke (n + 1) cbs;
}
thread_step test_stop s = record s {
  place = if s.stop then (if s.rt then stopping else clear) else (if s.rt then top else test_empty);
}
thread_step test_empty s = record s { place = if is_empty s.cbs then wait else top }
thread_step wait s = record s { place = if s.futex == minus_one then call else again }
thread_step call s = record s { place = if s.futex == minus_one then asleep else again }
thread_step asleep s = s
thread_step again s = record s { futex = decrement s.futex; place = top }
thread_step clear s = record s { futex = 0; place = stopping }
thread_step stopping s = record s { stopped = true; place = exited }
thread_step exited s = s

-- FUTEX_WAKE, or an interruption: FUTEX_WAIT returns, and the futex is loaded again.
abbrev pub woken : Place → Place
woken asleep = wait
woken p = p

abbrev pub set_pc : ℕ → Pc → State → State
set_pc i pc s = record s { waker = update s.waker i pc }

-- `wake_call_rcu_thread`, up to its first load of the futex
abbrev pub wake_call_rcu_thread : Bool → Pc
wake_call_rcu_thread rt = if rt then outside else looking

-- the next step of a thread that is inside of `_call_rcu` or `wake_call_rcu_thread`
unfoldable pub waker_step : ℕ → Pc → State → State
waker_step i outside s = s
waker_step i counting s =
    set_pc i (wake_call_rcu_thread s.rt) (record s { qlen = add_word s.qlen 1 })
waker_step i looking s = set_pc i (if s.futex == minus_one then resetting else outside) s
waker_step i resetting s = set_pc i calling (record s { futex = 0 })
waker_step i calling s = set_pc i outside (record s { place = woken s.place })

abbrev pub is_outside : Pc → Bool
is_outside outside = true
is_outside _ = false

pub data Event : Type 0 where
  run_thread : Event
  interrupt : Event  -- EINTR, or a wake-up by code that uses the same address
  go : ℕ → Event
  queue : ℕ → (head : ℕ) → Event
  ask_stop : ℕ → Event  -- `_call_rcu_data_free`
  ask_pause : ℕ → Event  -- `call_rcu_before_fork`
  end_pause : Event  -- `call_rcu_after_fork_parent`

-- A thread that is still inside of a call does not begin another.
unfoldable pub begin : Event → State → State
begin (queue i head) s =
    set_pc i counting (record s { cbs = s.cbs ++ head ∷ []; queued = s.queued ++ head ∷ [] })
begin (ask_stop i) s = set_pc i (wake_call_rcu_thread s.rt) (record s { stop = true })
begin (ask_pause i) s = set_pc i (wake_call_rcu_thread s.rt) (record s { pause = true })
begin _ s = s

unfoldable pub step : Event → State → State
unfolding thread_step waker_step begin
step run_thread s = thread_step s.place s
step interrupt s = record s { place = woken s.place }
step (go i) s = waker_step i (s.waker i) s
step (queue i head) s = if is_outside (s.waker i) then begin (queue i head) s else s
step (ask_stop i) s = if is_outside (s.waker i) then begin (ask_stop i) s else s
step (ask_pause i) s = if is_outside (s.waker i) then begin (ask_pause i) s else s
step end_pause s = record s { pause = false }

unfoldable pub run : List Event → State → State
run [] s = s
run (e ∷ es) s = run es (step e s)

-- as `call_rcu_data_init` leaves it
abbrev pub call_rcu_data_init : (rt : Bool) → State
call_rcu_data_init rt = record {
  rt = rt;
  stop = false;
  stopped = false;
  pause = false;
  has_paused = false;
  cbs = [];
  futex = 0;
  qlen = 0;
  place = enter;
  waker = λ i. outside;
  queued = [];
  invoked = [];
  called_at = 0;
  settled = 0;
}
