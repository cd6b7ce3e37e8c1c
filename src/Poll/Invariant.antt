-- ===== src/Poll/Invariant.antt =====
-- The worker's invariant: its head is queued exactly while it is active, and once.
use userspace_rcu.Prelude.{◌<◌, ◌≡◌, ◌⊎◌, true, List, [], ◌∷◌, arith, if◌then◌else◌, add_word, word}
use userspace_rcu.Poll.{
  Worker, urcu_poll_worker_cb, start_poll_synchronize_rcu, Event, start, callback, step, run,
}

pub record IsWorker (w : Worker) : Type 0 where
  pub in_range : w.current_state < word
  pub target_in_range : w.latest_target < word
  pub once : w.queued ≡ (if w.active then 1 else 0)
  pub near :
      w.active ≡ true
      → (w.latest_target ≡ w.current_state) ⊎ (w.latest_target ≡ add_word w.current_state 1)

start-IsWorker : {w : Worker} → IsWorker w → IsWorker (start_poll_synchronize_rcu w).1
unfolding start_poll_synchronize_rcu
start-IsWorker {w} v = ground (arith, v.near)

callback-IsWorker : {w : Worker} → IsWorker w → IsWorker (step callback w)
unfolding step urcu_poll_worker_cb
callback-IsWorker {w} v = ground (arith, v.near)

-- Every event keeps the invariant.
pub step-IsWorker : (e : Event) {w : Worker} → IsWorker w → IsWorker (step e w)
unfolding step
step-IsWorker start v = start-IsWorker v
step-IsWorker callback v = callback-IsWorker v

-- After any events the worker's head stands on the `call_rcu` queue once if the worker is active,
-- and not at all otherwise.
pub run-IsWorker : (es : List Event) {w : Worker} → IsWorker w → IsWorker (run es w)
unfolding run
run-IsWorker [] v = v
run-IsWorker (e ∷ es) v = run-IsWorker es (step-IsWorker e v)
