-- ===== src/Urcu/Tests.antt =====
-- The grace-period theorems at concrete interleavings.
use userspace_rcu.Prelude.{ℕ, zero, suc, ◌≡◌, ◌⊎◌, refl, List, [], ◌∷◌, arith, remove, replicate}
use userspace_rcu.Urcu.Reader.{calling, reader_state}
use userspace_rcu.Urcu.Updater.{State, second}
use userspace_rcu.Urcu.System.{
  Event, update_side, lock, continue, register, step, initial, run, AllAllowed, Reachable,
}
use userspace_rcu.Urcu.Invariant.{Inv}
use userspace_rcu.Urcu.Invariant.Step.{Reachable-Inv}
use userspace_rcu.Urcu.GracePeriod.Wait.{Done, synchronize_rcu-waits}
use userspace_rcu.Urcu.GracePeriod.Alarm.{IsBusy}
use userspace_rcu.Urcu.GracePeriod.Alarm.Threads.{asleep-has_waker}

AllAllowed-updates : (n : ℕ) (s : State) → AllAllowed (replicate n update_side) s
AllAllowed-updates zero s = tt
AllAllowed-updates (suc n) s = (tt, AllAllowed-updates n (step update_side s))

-- thread 0 registers and enters a critical section
abbrev entering : List Event
entering = register 0 ∷ lock 0 ∷ continue 0 ∷ []

abbrev entered : State
entered = run entering initial

entered-Reachable : Reachable entered
unfolding step
entered-Reachable = record {
  past = entering;
  allowed = ((refl, refl, refl, refl), ((refl, refl, omega arith), (tt, tt)));
  arrives = refl;
}

Reachable-Inv_example : Inv entered
Reachable-Inv_example = Reachable-Inv entered-Reachable

-- The updater begins, and looks at the reader twice; the reader nests a second lock.
synchronize_rcu-waits_example :
    ¬ Done
      (run
        (update_side ∷ lock 0 ∷ update_side ∷ update_side ∷ update_side ∷ [])
        (step update_side entered)).place
unfolding run step reader_state remove
synchronize_rcu-waits_example =
    synchronize_rcu-waits (update_side ∷ lock 0 ∷ update_side ∷ update_side ∷ update_side ∷ []) 0
      entered-Reachable refl (tt, ((refl, refl, omega arith), (tt, (tt, (tt, tt))))) (omega arith)

abbrev sleepy : List Event
sleepy = register 0 ∷ lock 0 ∷ continue 0 ∷ replicate 507 update_side

abbrev asleep : State
asleep = run sleepy initial

-- The reader stays inside until the updater sleeps in FUTEX_WAIT.
asleep-has_waker_example : (i : ℕ) × (IsBusy (asleep.thread i) ⊎ ((asleep.thread i).pc ≡ calling))
unfolding run step reader_state remove
asleep-has_waker_example =
    asleep-has_waker {s = asleep} second 100
      (record {
        past = sleepy;
        allowed = (
          (refl, refl, refl, refl),
          ((refl, refl, omega arith), (tt, AllAllowed-updates 507 entered)),
        );
        arrives = refl;
      })
      refl

-- A registered reader that is outside, and an updater that begins.
abbrev begun : State
begun = run (register 0 ∷ update_side ∷ []) initial
