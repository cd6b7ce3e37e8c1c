-- ===== src/Poll/Reached.antt =====
-- What `poll_state_synchronize_rcu` answers, in terms of the callbacks that have run since.
use userspace_rcu.Prelude.{
  ℕ, zero, suc, ◌^◌, ◌≤◌, ◌<◌, ◌≡◌, true, false, List, [], ◌∷◌, arith, ltb, if◌then◌else◌, add_word,
}
use userspace_rcu.Poll.{
  Worker, urcu_poll_worker_cb, start_poll_synchronize_rcu, poll_state_synchronize_rcu, Event, start,
  callback, step, run, callbacks,
}
use userspace_rcu.Poll.Invariant.{IsWorker, step-IsWorker}

-- Each callback that runs counts one grace period, and nothing else does.
current_state-run :
    (es : List Event) (w : Worker)
    → IsWorker w
    → (run es w).current_state ≡ add_word w.current_state (callbacks es w)
unfolding run callbacks step urcu_poll_worker_cb start_poll_synchronize_rcu
current_state-run [] w v = omega arith
current_state-run (start ∷ es) w v =
    ground (arith, current_state-run es (step start w) (step-IsWorker start v))
current_state-run (callback ∷ es) w v =
    ground (arith, current_state-run es (step callback w) (step-IsWorker callback v))

-- callbacks that were queued before the start: their grace period may have begun earlier
abbrev pub stale : Worker → ℕ
stale w = if w.active then 1 else 0

-- The answer is true exactly if, since the start, a callback has run besides the one that was
-- already queued at the start (if there was one), hence one whose grace period began after it.
-- Fewer than 2 ^ 63 callbacks may run in between.
pub poll-iff_fresh_callback :
    (es : List Event) (w : Worker)
    → IsWorker w
    → callbacks es (start_poll_synchronize_rcu w).1 < 2 ^ 63
    → poll_state_synchronize_rcu
        (start_poll_synchronize_rcu w).0
        (run es (start_poll_synchronize_rcu w).1)
      ≡ ltb (stale w) (callbacks es (start_poll_synchronize_rcu w).1)
unfolding poll_state_synchronize_rcu start_poll_synchronize_rcu step
poll-iff_fresh_callback es w v few =
    ground (arith, current_state-run es (start_poll_synchronize_rcu w).1 (step-IsWorker start v))

-- Whatever is still needed to reach a target `d` callbacks away is queued.
queued-run :
    (es : List Event) (w : Worker) (d m : ℕ)
    → IsWorker w
    → w.active ≡ true
    → w.latest_target ≡ add_word w.current_state m
    → m ≤ 1
    → d ≤ m
    → callbacks es w ≤ d
    → (run es w).queued ≡ 1
unfolding run callbacks step urcu_poll_worker_cb start_poll_synchronize_rcu
queued-run [] w d m v a l m1 dm c = ground arith
queued-run (start ∷ es) w d m v a l m1 dm c =
    ground (arith, queued-run es (step start w) d 1 (step-IsWorker start v))
queued-run (callback ∷ es) w zero m v a l m1 dm c = ground arith
queued-run (callback ∷ es) w (suc d) m v a l m1 dm c =
    ground (arith, queued-run es (step callback w) d 0 (step-IsWorker callback v))

-- While the answer for a started grace period is false, with fewer than 2 ^ 63 callbacks run since
-- the start, the worker's head stands on the call_rcu queue exactly once.
pub queued-of_not_reached :
    (es : List Event) (w : Worker)
    → IsWorker w
    → callbacks es (start_poll_synchronize_rcu w).1 < 2 ^ 63
    → poll_state_synchronize_rcu
        (start_poll_synchronize_rcu w).0
        (run es (start_poll_synchronize_rcu w).1)
      ≡ false
    → (run es (start_poll_synchronize_rcu w).1).queued ≡ 1
unfolding start_poll_synchronize_rcu step
queued-of_not_reached es w v few e = ground (
  arith,
  poll-iff_fresh_callback es w v few,
  queued-run es (start_poll_synchronize_rcu w).1 (stale w) (stale w) (step-IsWorker start v),
)
