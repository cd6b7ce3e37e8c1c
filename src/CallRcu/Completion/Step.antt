-- ===== src/CallRcu/Completion/Step.antt =====
-- Every step of `rcu_barrier` and of its works keeps the counts: src/urcu-call-rcu-impl.h.
use userspace_rcu.Prelude.{
  ℕ, ◌+◌, ◌^◌, ◌<◌, ◌≡◌, ◌≢◌, ◌⊎◌, inl, inr, refl, Bool, true, false, not, List, [], ◌∷◌, ◌==◌,
  if◌then◌else◌, has, update, length, distinct, arith, Bool-cases, sym, ap,
}
use userspace_rcu.CallRcu.Thread.{minus_one, decrement}
use userspace_rcu.CallRcu.Barrier.{
  Place, arm, test, wait, call, asleep, put, returned, Work, queued, looking, resetting, calling,
  putting, done, State, barrier_step, woken, work_step, Event, barrier, interrupt, complete, step,
  run, queue_works,
}
use userspace_rcu.CallRcu.Completion.{
  is_queued, is_done, is_coming, is_waiting, is_asleep, is_arm, has_returned, is_behind, number,
  number-update, number-positive, number-bound, Inv,
}

pub update_self {ℓ} : {A : Type ℓ} (f : ℕ → A) (i : ℕ) (a : A) → update f i a i ≡ a
update_self f i a = ground arith

module _ (l : List ℕ) (u : distinct l ≡ true) (small : length l < 2 ^ 31) where
  barrier_step-Inv : (p : Place) (s : State) → s.place ≡ p → Inv l s → Inv l (barrier_step p s)
  unfolding barrier_step
  barrier_step-Inv arm s e v = ground arith
  barrier_step-Inv test s e v = ground arith
  barrier_step-Inv wait s e v = ground arith
  barrier_step-Inv call s e v = ground arith
  barrier_step-Inv asleep s e v = v
  barrier_step-Inv put s e v = ground (arith, number-bound (λ w. not (is_done w)) s.work l)
  barrier_step-Inv returned s e v = v

  woken-cases : (p : Place) → (woken p ≡ p) ⊎ ((p ≡ asleep) × (woken p ≡ wait))
  woken-cases arm = inl refl
  woken-cases test = inl refl
  woken-cases wait = inl refl
  woken-cases call = inl refl
  woken-cases asleep = inr (refl, refl)
  woken-cases put = inl refl
  woken-cases returned = inl refl

  woken_lem :
      (p : Place)
      → (has_returned (woken p) ≡ has_returned p)
        × (is_arm (woken p) ≡ is_arm p)
        × (is_behind (woken p) ≡ is_behind p)
        × (is_waiting (woken p) ≡ is_waiting p)
        × (is_asleep (woken p) ≡ false)
  woken_lem arm = (refl, refl, refl, refl, refl)
  woken_lem test = (refl, refl, refl, refl, refl)
  woken_lem wait = (refl, refl, refl, refl, refl)
  woken_lem call = (refl, refl, refl, refl, refl)
  woken_lem asleep = (refl, refl, refl, refl, refl)
  woken_lem put = (refl, refl, refl, refl, refl)
  woken_lem returned = (refl, refl, refl, refl, refl)

  woken-Inv : (s : State) → Inv l s → Inv l (record s { place = woken s.place })
  woken-Inv s v = ground (arith, woken_lem s.place)

  present :
      (i : ℕ) (w : Work) (s : State) → Inv l s → s.work i ≡ w → is_done w ≡ false → has i l ≡ true
  present i w s v e n = ground (arith, v.absent i, rw (sym e) at n)

  keep-calling :
      (f : ℕ) (i : ℕ) (w : Work) (g : ℕ → Work)
      → g i ≢ calling
      → (f ≡ minus_one) ⊎ ((j : ℕ) × (g j ≡ calling))
      → (f ≡ minus_one) ⊎ ((j : ℕ) × (update g i w j ≡ calling))
  keep-calling f i w g n (inl x) = inl x
  keep-calling f i w g n (inr (j, c)) = inr (j, ground arith)

  keep-coming :
      (f : ℕ) (i : ℕ) (w : Work) (g : ℕ → Work)
      → is_coming (g i) ≡ false
      → (f ≢ minus_one) ⊎ ((j : ℕ) × (is_coming (g j) ≡ true))
      → (f ≢ minus_one) ⊎ ((j : ℕ) × (is_coming (update g i w j) ≡ true))
  keep-coming f i w g n (inl x) = inl x
  keep-coming f i w g n (inr (j, c)) = inr (j, ground arith)

  -- while a work is not freed, the completion is not
  alive :
      (i : ℕ) (w : Work) (s : State) → Inv l s → s.work i ≡ w → is_done w ≡ false → s.freed ≡ false
  alive i w s v e n = ground (
    arith,
    number-positive (λ w. not (is_done w)) s.work i l (present i w s v e n) (rw e (rw n refl)),
  )

  absent-update :
      (i : ℕ) (w w' : Work) (s : State)
      → Inv l s
      → s.work i ≡ w
      → is_done w ≡ false
      → (j : ℕ) → has j l ≡ false
      → update s.work i w' j ≡ done
  absent-update i w w' s v e n j a = ground (arith, present i w s v e n, v.absent j a)

  number-work :
      (p : Work → Bool) (i : ℕ) (w w' : Work) (s : State)
      → Inv l s
      → s.work i ≡ w
      → is_done w ≡ false
      → number p (update s.work i w') l + (if p w then 1 else 0)
        ≡ number p s.work l + (if p w' then 1 else 0)
  number-work p i w w' s v e n = omega (
    arith,
    number-update p s.work i w' l u (present i w s v e n),
    ap {B = ℕ} (λ x. if p x then 1 else 0) e,
  )

  -- the last decrement, or one of those before
  after_sub :
      (c : ℕ)
      → (is_queued (if c == 0 then looking else putting) ≡ false)
        × (is_done (if c == 0 then looking else putting) ≡ false)
  after_sub c = ground arith

  work_step-Inv : (i : ℕ) (w : Work) (s : State) → s.work i ≡ w → Inv l s → Inv l (work_step i w s)
  unfolding work_step
  work_step-Inv i queued s e v =
      let c = decrement s.barrier_count in
      let w' = if c == 0 then looking else putting in
      let nq = number-work is_queued i queued w' s v e refl in
      let nh = number-work (λ w. not (is_done w)) i queued w' s v e refl in
      let b = number-bound is_queued s.work l in
      let a = after_sub c in
      record {
        count = ground (arith, nq, b, a.0);
        holders = ground (arith, nh, a.1);
        freed = v.freed;
        misused = ground (arith, alive i queued s v e refl);
        word = v.word;
        reset = v.reset;
        behind = λ h. ground (arith, nq, v.behind h);
        alarm = λ h z. inr (i, ground arith);
        wake_up = λ h. keep-calling s.futex i w' s.work (ground arith) (v.wake_up h);
        absent = absent-update i queued w' s v e refl;
      }
  work_step-Inv i looking s e v =
      let w' = if s.futex == minus_one then resetting else putting in
      let nq = number-work is_queued i looking w' s v e refl in
      let nh = number-work (λ w. not (is_done w)) i looking w' s v e refl in
      record {
        count = ground (arith, nq);
        holders = ground (arith, nh);
        freed = v.freed;
        misused = ground (arith, alive i looking s v e refl);
        word = v.word;
        reset = v.reset;
        behind = v.behind;
        alarm = λ h z. elim (Bool-cases (s.futex == minus_one)) [
          | inl armed ↦ inr (i, ground arith)
          | inr moved ↦ inl (ground arith)
        ];
        wake_up = λ h. keep-calling s.futex i w' s.work (ground arith) (v.wake_up h);
        absent = absent-update i looking w' s v e refl;
      }
  work_step-Inv i resetting s e v =
      let nq = number-work is_queued i resetting calling s v e refl in
      let nh = number-work (λ w. not (is_done w)) i resetting calling s v e refl in
      record {
        count = ground (arith, nq);
        holders = ground (arith, nh);
        freed = v.freed;
        misused = ground (arith, alive i resetting s v e refl);
        word = inl refl;
        reset = λ h. refl;
        behind = v.behind;
        alarm = λ h z. inl (ground arith);
        wake_up = λ h. inr (i, update_self s.work i calling);
        absent = absent-update i resetting calling s v e refl;
      }
  work_step-Inv i calling s e v =
      let nq = number-work is_queued i calling putting s v e refl in
      let nh = number-work (λ w. not (is_done w)) i calling putting s v e refl in
      let o = woken-Inv s v in
      record {
        count = ground (arith, nq);
        holders = ground (arith, nh, woken_lem s.place);
        freed = v.freed;
        misused = v.misused;
        word = v.word;
        reset = o.reset;
        behind = o.behind;
        alarm = λ h z. keep-coming s.futex i putting s.work (rw e refl) (o.alarm h z);
        wake_up = λ h. ground (arith, woken_lem s.place);
        absent = absent-update i calling putting s v e refl;
      }
  work_step-Inv i putting s e v =
      let nq = number-work is_queued i putting done s v e refl in
      let nh = number-work (λ w. not (is_done w)) i putting done s v e refl in
      let b = number-bound (λ w. not (is_done w)) s.work l in
      record {
        count = ground (arith, nq);
        holders = ground (arith, nh, b);
        freed = ground (arith, nh, b, alive i putting s v e refl);
        misused = ground (arith, alive i putting s v e refl);
        word = v.word;
        reset = v.reset;
        behind = v.behind;
        alarm = λ h z. keep-coming s.futex i done s.work (rw e refl) (v.alarm h z);
        wake_up = λ h. keep-calling s.futex i done s.work (ground arith) (v.wake_up h);
        absent = absent-update i putting done s v e refl;
      }
  work_step-Inv i done s e v = v

  step-Inv : (e : Event) (s : State) → Inv l s → Inv l (step e s)
  unfolding step
  step-Inv barrier s v = barrier_step-Inv s.place s refl v
  step-Inv interrupt s v = woken-Inv s v
  step-Inv (complete i) s v = work_step-Inv i (s.work i) s refl v

  run-Inv : (es : List Event) (s : State) → Inv l s → Inv l (run es s)
  unfolding run
  run-Inv [] s v = v
  run-Inv (e ∷ es) s v = run-Inv es (step e s) (step-Inv e s v)

  initial :
      (p : Work → Bool) (m : List ℕ)
      → p queued ≡ true
      → ((i : ℕ) → has i m ≡ true → has i l ≡ true)
      → number p (queue_works l).work m ≡ length m
  initial p [] q c = refl
  initial p (i ∷ m) q c = ground (arith, c i, initial p m q (λ j h. c j (ground arith)))

  pub Reached-Inv : (es : List Event) → Inv l (run es (queue_works l))
  Reached-Inv es = run-Inv es _ (
      ground (
        arith,
        initial is_queued l refl (λ i h. h),
        initial (λ w. not (is_done w)) l refl (λ i h. h),
      ))
