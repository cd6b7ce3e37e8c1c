-- ===== src/GpWait/BatchTests.antt =====
-- Two calls of `synchronize_rcu`, of which the first serves the second.
use userspace_rcu.Prelude.{suc, ◌<◌, ◌≤◌, refl, List, [], ◌∷◌, ◌++◌, replicate}
use userspace_rcu.GpWait.Queue.{
  Event, call, go, begin, take_lock, wake_one, call_step, step, run, initial,
}
use userspace_rcu.GpWait.Batch.{Keeper, returned-served, waiting-kept}

-- Call 7 joins the queue of call 3, which takes it along.
abbrev joined : List Event
joined = call 3 ∷ call 7 ∷ replicate 4 (go 3)

abbrev served : List Event
served = joined ++ replicate 4 (go 3) ++ go 7 ∷ []

returned-served_example :
    let s = run served initial in
    (s.since 7 < s.ended) × (s.ended ≤ s.started) × (s.started ≤ suc s.ended)
unfolding run step begin take_lock wake_one call_step
returned-served_example = returned-served served 7 refl

waiting-kept_example : Keeper 7 (run joined initial)
unfolding run step begin take_lock call_step
waiting-kept_example = waiting-kept joined 7 refl refl
