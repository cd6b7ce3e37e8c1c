-- ===== src/CallRcu/Completion/Return.antt =====
-- `rcu_barrier` returns after the last of its works, is woken by it, and the completion is freed once
-- nobody uses it: src/urcu-call-rcu-impl.h.
use userspace_rcu.Prelude.{
  ℕ, zero, suc, ◌^◌, ◌<◌, ◌≡◌, inl, inr, refl, Bool, true, false, not, ◌&&◌, List, [], ◌∷◌, ◌==◌,
  has, length, distinct, arith, sym, ap, ◌∙◌, replicate,
}
use userspace_rcu.CallRcu.Thread.{minus_one}
use userspace_rcu.CallRcu.Barrier.{
  wait, asleep, Work, queued, looking, resetting, calling, putting, done, State, work_step, Event,
  complete, step, run, queue_works,
}
use userspace_rcu.CallRcu.Completion.{
  is_queued, is_done, is_coming, has_returned, is_behind, number,
}
use userspace_rcu.CallRcu.Completion.Step.{Reached-Inv, update_self}

number_zero :
    (p : Work → Bool) (f : ℕ → Work) (i : ℕ) (l : List ℕ)
    → number p f l ≡ 0
    → has i l ≡ true
    → p (f i) ≡ false
number_zero p f i [] z m = ground arith
number_zero p f i (j ∷ l) z m = ground (arith, number_zero p f i l)

abbrev Wakes : ℕ → ℕ → State → Type 0
Wakes i n s = (run (replicate n (complete i)) s).place ≡ wait

Wakes-step :
    (i n : ℕ) (w : Work) (s : State)
    → s.work i ≡ w
    → Wakes i n (work_step i w s)
    → Wakes i (suc n) s
unfolding run step
Wakes-step i n w s e d = ap (λ x. (run (replicate n (complete i)) (work_step i x s)).place) e ∙ d

-- What comes behind the FUTEX_WAKE does not move the waiter.
Wakes-done : (i n : ℕ) (s : State) → s.work i ≡ done → s.place ≡ wait → Wakes i n s
unfolding run work_step
Wakes-done i zero s e p = p
Wakes-done i (suc n) s e p = Wakes-step i n done s e (Wakes-done i n s e p)

Wakes-putting : (i n : ℕ) (s : State) → s.work i ≡ putting → s.place ≡ wait → Wakes i n s
unfolding run work_step
Wakes-putting i zero s e p = p
Wakes-putting i (suc n) s e p =
    Wakes-step i n putting s e (Wakes-done i n _ (update_self s.work i done) p)

Wakes-calling : (i n : ℕ) (s : State) → s.work i ≡ calling → s.place ≡ asleep → Wakes i (suc n) s
unfolding work_step
Wakes-calling i n s e p =
    Wakes-step i n calling s e (Wakes-putting i n _ (update_self s.work i putting) (rw p refl))

Wakes-resetting :
    (i n : ℕ) (s : State) → s.work i ≡ resetting → s.place ≡ asleep → Wakes i (suc (suc n)) s
unfolding work_step
Wakes-resetting i n s e p =
    Wakes-step i (suc n) resetting s e (Wakes-calling i n _ (update_self s.work i calling) p)

Wakes-coming :
    (i : ℕ) (w : Work) (s : State)
    → s.work i ≡ w
    → is_coming w ≡ true
    → s.futex ≡ minus_one
    → s.place ≡ asleep
    → Wakes i 3 s
unfolding work_step
Wakes-coming i queued s e c f p = ground arith
Wakes-coming i looking s e c f p =
    Wakes-step i 2 looking s e (Wakes-resetting i 0 _ (rw f (update_self s.work i resetting)) p)
Wakes-coming i resetting s e c f p = Wakes-resetting i 1 s e p
Wakes-coming i calling s e c f p = ground arith
Wakes-coming i putting s e c f p = ground arith
Wakes-coming i done s e c f p = ground arith

module _ (l : List ℕ) (u : distinct l ≡ true) (small : length l < 2 ^ 31) where
  -- In every interleaving, when `rcu_barrier` returns, and already before it gives up its reference,
  -- the work that it queued to each structure has been invoked.
  pub rcu_barrier-waits :
      (es : List Event)
      → let s = run es (queue_works l) in
        is_behind s.place ≡ true → (i : ℕ) → has i l ≡ true → is_queued (s.work i) ≡ false
  rcu_barrier-waits es b i m =
      let v = Reached-Inv l u small es in number_zero is_queued _ i l (sym v.count ∙ v.behind b) m

  -- In every interleaving the completion is never used after it is freed, and it is freed exactly
  -- when `rcu_barrier` has returned and every work has given up its reference.
  pub completion-freed_last :
      (es : List Event)
      → let s = run es (queue_works l) in
        (s.misused ≡ false)
        × (s.freed ≡ (has_returned s.place && (number (λ w. not (is_done w)) s.work l == 0)))
  completion-freed_last es =
      let v = Reached-Inv l u small es in (v.misused, ground (arith, v.freed, v.holders))

  -- In every interleaving, while `rcu_barrier` sleeps although all its works have been invoked, one
  -- of them is on its way to wake it, and does so within three of its steps.
  pub rcu_barrier-is_woken :
      (es : List Event)
      → let s = run es (queue_works l) in
        s.place ≡ asleep
        → s.barrier_count ≡ 0
        → (i : ℕ) × ((run (replicate 3 (complete i)) s).place ≡ wait)
  rcu_barrier-is_woken es p z =
      let v = Reached-Inv l u small es in
      let s = run es (queue_works l) in
      elim (v.wake_up (rw p refl)) [
        | inr (i, c) ↦ (i, Wakes-calling i 2 s c p)
        | inl f ↦ elim (v.alarm (rw p refl) z) [
          | inl x ↦ absurd (x f)
          | inr (i, c) ↦ (i, Wakes-coming i (s.work i) s refl c f p)
        ]
      ]
