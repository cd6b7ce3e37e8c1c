-- ===== src/CallRcu/Stop.antt =====
-- The end of `call_rcu_thread`, which `_call_rcu_data_free` waits for: src/urcu-call-rcu-impl.h.
use userspace_rcu.Prelude.{
  ℕ, suc, ◌+◌, ◌≡◌, inl, inr, refl, Bool, true, false, not, List, [], ◌∷◌, arith, ◌==◌, is_empty,
  Bool-cases, ap, ◌∙◌, replicate,
}
use userspace_rcu.CallRcu.Thread.{
  minus_one, Place, enter, top, pausing, paused, unpausing, splice, synchronize, grace, invoke,
  test_stop, test_empty, wait, call, asleep, again, clear, stopping, exited, State, thread_step,
  run_thread, step, run,
}
use userspace_rcu.Prelude.{replicate, suc}

abbrev Stops : State → Type 0
Stops s = (k : ℕ) × ((run (replicate k run_thread) s).stopped ≡ true)

Stops-step : (p : Place) (s : State) → s.place ≡ p → Stops (thread_step p s) → Stops s
unfolding run step
Stops-step p s e (k, d) =
    (suc k, ap (λ q. (run (replicate k run_thread) (thread_step q s)).stopped) e ∙ d)

-- the thread stops from here, once it is asked to
abbrev StopsAt : Place → Type 0
StopsAt p = (s : State) → s.place ≡ p → s.stop ≡ true → s.pause ≡ false → Stops s

stopping-stops : StopsAt stopping
unfolding thread_step run
stopping-stops s e t f = Stops-step stopping s e (0, refl)

clear-stops : StopsAt clear
unfolding thread_step
clear-stops s e t f = Stops-step clear s e (stopping-stops _ refl t f)

test_stop-stops : StopsAt test_stop
unfolding thread_step
test_stop-stops s e t f = Stops-step test_stop s e (elim (Bool-cases s.rt) [
  | inl r ↦ stopping-stops _ (rw (t, r) refl) t f
  | inr r ↦ clear-stops _ (rw (t, r) refl) t f
])

invoke-stops : (n : ℕ) (cbs : List ℕ) → StopsAt (invoke n cbs)
unfolding thread_step
invoke-stops n [] s e t f = Stops-step (invoke n []) s e (test_stop-stops _ refl t f)
invoke-stops n (c ∷ cbs) s e t f =
    Stops-step (invoke n (c ∷ cbs)) s e (invoke-stops (n + 1) cbs _ refl t f)

grace-stops : (cbs : List ℕ) → StopsAt (grace cbs)
unfolding thread_step
grace-stops cbs s e t f = Stops-step (grace cbs) s e (invoke-stops 0 cbs _ refl t f)

synchronize-stops : (cbs : List ℕ) → StopsAt (synchronize cbs)
unfolding thread_step
synchronize-stops cbs s e t f = Stops-step (synchronize cbs) s e (grace-stops cbs _ refl t f)

splice-stops : StopsAt splice
unfolding thread_step
splice-stops s e t f = Stops-step splice s e (elim (Bool-cases (is_empty s.cbs)) [
  | inl none ↦ test_stop-stops _ (rw none refl) t f
  | inr some ↦ synchronize-stops s.cbs _ (rw some refl) t f
])

top-stops : StopsAt top
unfolding thread_step
top-stops s e t f = Stops-step top s e (splice-stops _ (rw f refl) t f)

unpausing-stops : StopsAt unpausing
unfolding thread_step
unpausing-stops s e t f = Stops-step unpausing s e (splice-stops _ refl t f)

paused-stops : StopsAt paused
unfolding thread_step
paused-stops s e t f = Stops-step paused s e (unpausing-stops _ (rw f refl) t f)

again-stops : StopsAt again
unfolding thread_step
again-stops s e t f = Stops-step again s e (top-stops _ refl t f)

-- the places from which the thread comes to its end by itself
abbrev pub can_stop : Place → (futex : ℕ) → Bool
can_stop test_empty futex = not (futex == minus_one)
can_stop wait futex = not (futex == minus_one)
can_stop call futex = not (futex == minus_one)
can_stop asleep futex = false
can_stop exited futex = false
can_stop _ futex = true

wait-Stops :
    (s : State)
    → s.place ≡ wait
    → s.stop ≡ true
    → s.pause ≡ false
    → (s.futex == minus_one) ≡ false
    → Stops s
unfolding thread_step
wait-Stops s e t f m = Stops-step wait s e (rw m (again-stops _ refl t f))

stops :
    (p : Place) (s : State)
    → s.place ≡ p
    → s.stop ≡ true
    → s.pause ≡ false
    → can_stop p s.futex ≡ true
    → Stops s
unfolding thread_step
stops enter s e t f m = Stops-step enter s e (top-stops _ refl t f)
stops top s e t f m = top-stops s e t f
stops pausing s e t f m = Stops-step pausing s e (paused-stops _ refl t f)
stops paused s e t f m = paused-stops s e t f
stops unpausing s e t f m = unpausing-stops s e t f
stops splice s e t f m = splice-stops s e t f
stops (synchronize cbs) s e t f m = synchronize-stops cbs s e t f
stops (grace cbs) s e t f m = grace-stops cbs s e t f
stops (invoke n cbs) s e t f m = invoke-stops n cbs s e t f
stops test_stop s e t f m = test_stop-stops s e t f
stops test_empty s e t f m = Stops-step test_empty s e (elim (Bool-cases (is_empty s.cbs)) [
  | inl none ↦ rw none (wait-Stops _ refl t f (ground arith))
  | inr some ↦ rw some (top-stops _ refl t f)
])
stops wait s e t f m = wait-Stops s e t f (ground arith)
stops call s e t f m =
    let n : (s.futex == minus_one) ≡ false = ground arith in
    Stops-step call s e (rw n (again-stops _ refl t f))
stops asleep s e t f m = ground arith
stops again s e t f m = again-stops s e t f
stops clear s e t f m = clear-stops s e t f
stops stopping s e t f m = stopping-stops s e t f
stops exited s e t f m = ground arith
