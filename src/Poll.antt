-- ===== src/Poll.antt =====
-- Grace-period polling, src/urcu-poll-impl.h. The state is `struct urcu_poll_worker_state`; every
-- function holds its lock throughout, so each is one atomic step. `call_rcu` belongs to another
-- component: here it puts the worker's `rcu_head` on a queue, and `queued` counts how often that
-- one head stands there.
mod Invariant
pub mod Reached
mod Tests
use userspace_rcu.Prelude.{
  ℕ, ◌+◌, ◌-◌, ◌≡◌, refl, Bool, true, false, not, List, [], ◌∷◌, arith, if◌then◌else◌, add_word,
  sub_word, is_negative,
}

pub record Worker : Type 0 where
  pub current_state : ℕ
  pub latest_target : ℕ
  pub active : Bool
  pub queued : ℕ

-- the static initialiser of `poll_worker_gp_state`
abbrev pub initial : Worker
initial = record { current_state = 0; latest_target = 0; active = false; queued = 0 }

-- `call_rcu(&poll_worker_gp_state.rcu_head, urcu_poll_worker_cb)`
abbrev pub call_rcu : Worker → Worker
call_rcu w = record w { queued = w.queued + 1 }

-- `(long) (a - b) < 0`
abbrev pub is_before : ℕ → ℕ → Bool
is_before a b = is_negative (sub_word a b)

pub urcu_poll_worker_cb : Worker → Worker
urcu_poll_worker_cb w =
    let current : ℕ = add_word w.current_state 1 in
    if not (is_before w.latest_target current)
    then call_rcu (record w { current_state = current })
    else record w { current_state = current; active = false }

-- the target, and the new state
pub start_poll_synchronize_rcu : Worker → ℕ × Worker
start_poll_synchronize_rcu w =
    if w.active
    then (let target : ℕ = add_word w.current_state 1 in
        (target, record w { latest_target = target }))
    else (w.current_state, call_rcu (record w { active = true; latest_target = w.current_state }))

pub poll_state_synchronize_rcu : ℕ → Worker → Bool
poll_state_synchronize_rcu target w = is_before target w.current_state

-- What can happen to the worker: some thread starts to poll, or a grace period ends and the
-- `call_rcu` thread takes the head off the queue and calls it.
pub data Event : Type 0 where
  start : Event
  callback : Event

-- A callback happens only if one is queued.
pub step : Event → Worker → Worker
step start w = (start_poll_synchronize_rcu w).1
step callback w = elim w.queued [
  | ℕ.zero ↦ w
  | ℕ.suc n ↦ urcu_poll_worker_cb (record w { queued = n })
]

-- the events in order
pub run : List Event → Worker → Worker
run [] w = w
run (e ∷ es) w = run es (step e w)

-- how many callbacks run in `run es w`
pub callbacks : List Event → Worker → ℕ
callbacks [] w = 0
callbacks (callback ∷ es) w =
    callbacks es (step callback w) + elim w.queued [ ℕ.zero ↦ 0 | ℕ.suc n ↦ 1 ]
callbacks (start ∷ es) w = callbacks es (step start w)
