-- ===== src/CallRcu/WakeUp.antt =====
-- The thread that wakes a sleeping `call_rcu_thread` of src/urcu-call-rcu-impl.h.
use userspace_rcu.Prelude.{
  ℕ, zero, suc, ◌≡◌, inl, inr, refl, Bool, true, false, not, ◌||◌, List, arith, is_empty, ap, ◌∙◌,
  replicate,
}
use userspace_rcu.CallRcu.Thread.{
  minus_one, wait, asleep, Pc, outside, counting, looking, resetting, calling, State, waker_step,
  Event, go, step, run, call_rcu_data_init,
}
use userspace_rcu.CallRcu.Futex.{is_coming, Inv, run-Inv, init-Inv, update_self}

abbrev Wakes : ℕ → ℕ → State → Type 0
Wakes i n s = (run (replicate n (go i)) s).place ≡ wait

Wakes-step :
    (i n : ℕ) (pc : Pc) (s : State)
    → s.waker i ≡ pc
    → Wakes i n (waker_step i pc s)
    → Wakes i (suc n) s
unfolding run step
Wakes-step i n pc s e d = ap (λ q. (run (replicate n (go i)) (waker_step i q s)).place) e ∙ d

Wakes-outside : (i n : ℕ) (s : State) → s.waker i ≡ outside → s.place ≡ wait → Wakes i n s
unfolding run waker_step
Wakes-outside i zero s e p = p
Wakes-outside i (suc n) s e p = Wakes-step i n outside s e (Wakes-outside i n s e p)

call-Wakes : (i n : ℕ) (s : State) → s.waker i ≡ calling → s.place ≡ asleep → Wakes i (suc n) s
unfolding waker_step
call-Wakes i n s e p =
    Wakes-step i n calling s e (Wakes-outside i n _ (update_self s.waker i outside) (rw p refl))

resetting-Wakes :
    (i n : ℕ) (s : State) → s.waker i ≡ resetting → s.place ≡ asleep → Wakes i (suc (suc n)) s
unfolding waker_step
resetting-Wakes i n s e p =
    Wakes-step i (suc n) resetting s e (call-Wakes i n _ (update_self s.waker i calling) p)

looking-Wakes :
    (i n : ℕ) (s : State)
    → s.waker i ≡ looking
    → s.futex ≡ minus_one
    → s.place ≡ asleep
    → Wakes i (suc (suc (suc n))) s
unfolding waker_step
looking-Wakes i n s e f p =
    Wakes-step i (suc (suc n)) looking s e
      (resetting-Wakes i n _ (rw f (update_self s.waker i resetting)) p)

reset-Wakes :
    (i : ℕ) (pc : Pc) (s : State)
    → s.waker i ≡ pc
    → is_coming pc ≡ true
    → s.rt ≡ false
    → s.futex ≡ minus_one
    → s.place ≡ asleep
    → Wakes i 4 s
unfolding waker_step
reset-Wakes i outside s e c r f p = ground arith
reset-Wakes i counting s e c r f p =
    Wakes-step i 3 counting s e (looking-Wakes i 0 _ (rw r (update_self s.waker i looking)) f p)
reset-Wakes i looking s e c r f p = looking-Wakes i 1 s e f p
reset-Wakes i resetting s e c r f p = resetting-Wakes i 2 s e p
reset-Wakes i calling s e c r f p = ground arith

news-Wakes :
    (s : State)
    → Inv s
    → s.place ≡ asleep
    → (s.pause || s.stop || not (is_empty s.cbs)) ≡ true
    → (i : ℕ) × Wakes i 4 s
news-Wakes s v p n =
    let r = v.not_rt (rw p refl) in
    elim (v.wake_up (rw p refl)) [
      | inr (i, c) ↦ (i, call-Wakes i 3 s c p)
      | inl f ↦ elim (v.news r (rw p n)) [
        | inl x ↦ absurd (x f)
        | inr (i, c) ↦ (i, reset-Wakes i (s.waker i) s refl c r f p)
      ]
    ]

-- In every interleaving, a `call_rcu_thread` that sleeps in FUTEX_WAIT while a callback is queued or
-- URCU_CALL_RCU_STOP or URCU_CALL_RCU_PAUSE is set is woken by some thread that is inside of
-- `_call_rcu` or `wake_call_rcu_thread`, within four steps of that thread.
pub asleep-is_woken :
    (rt : Bool) (es : List Event)
    → let s = run es (call_rcu_data_init rt) in
      s.place ≡ asleep
      → (s.pause || s.stop || not (is_empty s.cbs)) ≡ true
      → (i : ℕ) × ((run (replicate 4 (go i)) s).place ≡ wait)
asleep-is_woken rt es p n = news-Wakes _ (run-Inv es _ (init-Inv rt)) p n
