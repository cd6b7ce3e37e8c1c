-- ===== src/Urcu/GracePeriod/Alarm/Threads.antt =====
-- The readers keep what the updater's sleep relies on.
use userspace_rcu.Prelude.{
  ℕ, ◌-◌, ◌≡◌, ◌≢◌, ◌⊎◌, refl, inl, inr, Bool, true, false, List, [], ◌∷◌, sym, ◌∙◌, arith, ◌==◌,
  has, Bool-cases, ==_iff,
}
use mathlib.Core.Bool.{false≢true}
use userspace_rcu.Urcu.Reader.{
  gp_ctr_phase, nest, Pc, running, locking, waking, resetting, calling, Thread, read_lock,
  read_unlock, resume, reset, minus_one,
}
use userspace_rcu.Urcu.Updater.{
  Pass, Place, idle, scan, test, wait, call, sleep, State, register_thread, unregister_thread, wake,
  input, holds_registry_lock,
}
use userspace_rcu.Urcu.System.{
  Event, update_side, interrupt, lock, unlock, continue, register, unregister, Allowed, step,
  set_thread, wake_by, AllAllowed, run, Reachable,
}
use userspace_rcu.Urcu.Invariant.{IsReader, Inv}
use userspace_rcu.Urcu.Invariant.Step.{step-Inv, initial-Inv}
use userspace_rcu.Urcu.GracePeriod.Alarm.{IsBusy, Alarm, WakeUp, Armed, updater_at-Armed}

keep_input :
    (p : Pass) (i : ℕ) (s t : State)
    → (t.registry ≡ s.registry) × (t.cur_snap_readers ≡ s.cur_snap_readers)
    → has i (input p t.registry t.cur_snap_readers) ≡ true
    → has i (input p s.registry s.cur_snap_readers) ≡ true
keep_input p i s t (r, c) h = rw (← r, ← c) h

abbrev is_asleep : Place → Bool
is_asleep (sleep _ _) = true
is_asleep _ = false

-- What a change that is not the updater's has to leave alone.
Armed-transfer :
    (q : Place) (s t : State)
    → Armed q s
    → (Alarm s → Alarm t)
    → (is_asleep q ≡ true → WakeUp s → WakeUp t)
    → (holds_registry_lock q ≡ true
        → (t.registry ≡ s.registry) × (t.cur_snap_readers ≡ s.cur_snap_readers))
    → Armed q t
Armed-transfer (scan p n todo) s t a al w same = λ m i h.
    elim (a m i (keep_input p i s t (same refl) h)) [ inl later ↦ inl later | inr x ↦ inr (al x) ]
Armed-transfer (test p n) s t a al w same = λ m i h. al (a m i (keep_input p i s t (same refl) h))
Armed-transfer (wait p n) s t a al w same = al a
Armed-transfer (call p n) s t a al w same = al a
Armed-transfer (sleep p n) s t a al w same = (al a.0, w refl a.1)
Armed-transfer _ s t a al w same = tt

IsBusy-read_lock :
    (g : ℕ) (t : Thread)
    → t.pc ≡ running
    → nest t.ctr ≢ gp_ctr_phase - 1
    → IsBusy t
    → IsBusy (read_lock g t)
unfolding read_lock
IsBusy-read_lock g t e m b = ground arith

IsBusy-read_unlock :
    (t : Thread) → t.pc ≡ running → nest t.ctr ≢ 0 → IsBusy t → IsBusy (read_unlock t)
unfolding read_unlock
IsBusy-read_unlock t e m b = ground arith

-- A busy reader stays busy, or the futex is reset.
IsBusy-resume :
    (f : ℕ) (p : Pc) (t : Thread)
    → IsReader t
    → t.pc ≡ p
    → IsBusy t
    → (reset f p ≢ minus_one) ⊎ IsBusy (resume f p t)
unfolding reset resume
IsBusy-resume f running t r e b = inr b
IsBusy-resume f (locking g) t r e b = absurd (ground (arith, (r.locking g e).1))
IsBusy-resume f waking t r e b = ground arith
IsBusy-resume f resetting t r e b = inl (omega arith)
IsBusy-resume f calling t r e b = ground arith

-- What an operation of thread `j` keeps: its own part, and what others are doing.
Alarm-set_thread :
    (j : ℕ) (f : Thread → Thread) (futex : ℕ) (s : State)
    → (s.futex ≢ minus_one → futex ≢ minus_one)
    → (IsBusy (s.thread j) → (futex ≢ minus_one) ⊎ IsBusy (f (s.thread j)))
    → Alarm s
    → Alarm (set_thread j f (record s { futex = futex }))
unfolding set_thread
Alarm-set_thread j f futex s up b (inl h) = inl (up h)
Alarm-set_thread j f futex s up b (inr (i, h)) = elim (Bool-cases (j == i)) [
  | inl same ↦ elim (b (rw ((==_iff j i).0 same) h)) [ inl x ↦ inl x | inr y ↦ inr (i, rw same y) ]
  | inr other ↦ inr (i, rw other h)
]

WakeUp-set_thread :
    (j : ℕ) (f : Thread → Thread) (futex : ℕ) (s : State)
    → (s.futex ≡ minus_one → (futex ≡ minus_one) ⊎ ((f (s.thread j)).pc ≡ calling))
    → ((s.thread j).pc ≡ calling → (f (s.thread j)).pc ≡ calling)
    → WakeUp s
    → WakeUp (set_thread j f (record s { futex = futex }))
unfolding set_thread
WakeUp-set_thread j f futex s up b (inl h) = elim (up h) [
  | inl x ↦ inl x
  | inr y ↦ inr (j, ground arith)
]
WakeUp-set_thread j f futex s up b (inr (i, h)) = elim (Bool-cases (j == i)) [
  | inl same ↦ inr (i, rw same (b (rw ((==_iff j i).0 same) h)))
  | inr other ↦ inr (i, rw other h)
]

Armed-wake : (q : Place) (s : State) → Armed q s → Armed (wake q) s
Armed-wake (sleep p n) s a = a.0
Armed-wake idle s a = a
Armed-wake _ s a = a

wake_not_asleep : (q : Place) → is_asleep (wake q) ≡ false
wake_not_asleep (sleep p n) = refl
wake_not_asleep idle = refl
wake_not_asleep _ = refl

-- A wake-up: the updater is no longer asleep, so nobody has to wake it.
wake-Armed :
    (q : Place) (s t : State)
    → Armed q s
    → (Alarm s → Alarm t)
    → (t.registry ≡ s.registry) × (t.cur_snap_readers ≡ s.cur_snap_readers)
    → Armed (wake q) t
wake-Armed q s t a al same =
    Armed-transfer (wake q) s t (Armed-wake q s a) al
      (λ asleep. absurd (false≢true (sym (wake_not_asleep q) ∙ asleep))) (λ _. same)

reset_keeps : (f : ℕ) (q : Pc) → f ≢ minus_one → reset f q ≢ minus_one
unfolding reset
reset_keeps f resetting h = omega arith
reset_keeps f running h = h
reset_keeps f _ h = h

-- Who resets the futex goes on to FUTEX_WAKE.
reset_wakes :
    (f : ℕ) (q : Pc) (t : Thread)
    → f ≡ minus_one
    → (reset f q ≡ minus_one) ⊎ ((resume f q t).pc ≡ calling)
unfolding reset resume
reset_wakes f resetting t h = inr refl
reset_wakes f running t h = inl h
reset_wakes f _ t h = inl h

continue-Armed :
    (j : ℕ) (q : Pc) (s : State)
    → IsReader (s.thread j)
    → (s.thread j).pc ≡ q
    → Armed s.place s
    → let t = wake_by q (set_thread j (resume s.futex q) (record s { futex = reset s.futex q })) in
      Armed t.place t
unfolding wake_by set_thread
continue-Armed j calling s r e m =
    wake-Armed s.place s _ m
      (Alarm-set_thread j (resume s.futex calling) (reset s.futex calling) s
        (reset_keeps s.futex calling) (IsBusy-resume s.futex calling (s.thread j) r e))
      (refl, refl)
continue-Armed j q s r e m =
    Armed-transfer s.place s _ m
      (Alarm-set_thread j (resume s.futex q) (reset s.futex q) s (reset_keeps s.futex q)
        (IsBusy-resume s.futex q (s.thread j) r e))
      (λ _.
        WakeUp-set_thread j (resume s.futex q) (reset s.futex q) s
          (reset_wakes s.futex q (s.thread j)) (λ h. cc))
      (λ _. (refl, refl))

pub step-Armed :
    (e : Event) {s : State}
    → Inv s
    → Allowed e s
    → Armed s.place s
    → Armed (step e s).place (step e s)
unfolding step register_thread unregister_thread set_thread
step-Armed update_side {s} v a m = updater_at-Armed s.place s refl m
step-Armed interrupt {s} v a m = wake-Armed s.place s _ m (λ x. x) (refl, refl)
step-Armed (lock j) {s} v a m =
    Armed-transfer s.place s _ m
      (Alarm-set_thread j (read_lock s.ctr) s.futex s (λ h. h)
        (λ b. inr (IsBusy-read_lock s.ctr (s.thread j) a.1 a.2 b)))
      (λ _. WakeUp-set_thread j (read_lock s.ctr) s.futex s (λ h. inl h) (λ h. cc))
      (λ _. (refl, refl))
step-Armed (unlock j) {s} v a m =
    Armed-transfer s.place s _ m
      (Alarm-set_thread j read_unlock s.futex s (λ h. h)
        (λ b. inr (IsBusy-read_unlock (s.thread j) a.1 a.2 b)))
      (λ _. WakeUp-set_thread j read_unlock s.futex s (λ h. inl h) (λ h. cc)) (λ _. (refl, refl))
step-Armed (continue j) {s} v a m = continue-Armed j (s.thread j).pc s (v.reader j) refl m
step-Armed (register j) {s} v a m =
    Armed-transfer s.place s _ m
      (Alarm-set_thread j (λ t. record t { registered = true }) s.futex s (λ h. h) (λ b. inr b))
      (λ _.
        WakeUp-set_thread j (λ t. record t { registered = true }) s.futex s (λ h. inl h) (λ h. h))
      (λ h. absurd (false≢true (sym a.0 ∙ h)))
step-Armed (unregister j) {s} v a m =
    Armed-transfer s.place s _ m
      (Alarm-set_thread j (λ t. record t { registered = false }) s.futex s (λ h. h) (λ b. inr b))
      (λ _.
        WakeUp-set_thread j (λ t. record t { registered = false }) s.futex s (λ h. inl h) (λ h. h))
      (λ h. absurd (false≢true (sym a.0 ∙ h)))

run-Armed :
    (es : List Event) {s : State}
    → Inv s
    → AllAllowed es s
    → Armed s.place s
    → Armed (run es s).place (run es s)
unfolding run
run-Armed [] v a m = m
run-Armed (e ∷ es) v a m = run-Armed es (step-Inv e v a.0) a.1 (step-Armed e v a.0 m)

-- No wake-up is lost: in a reachable state in which the updater is asleep in FUTEX_WAIT, some thread
-- is inside a critical section, or is inside `rcu_read_unlock` on its way to reset the futex and to
-- wake the updater.
pub asleep-has_waker :
    {s : State} (p : Pass) (n : ℕ)
    → Reachable s
    → s.place ≡ sleep p n
    → (i : ℕ) × (IsBusy (s.thread i) ⊎ ((s.thread i).pc ≡ calling))
asleep-has_waker {s} p n r e = go (rw e at armed)
  where
    armed : Armed s.place s
    armed = rw r.arrives at (run-Armed r.past initial-Inv r.allowed tt)

    go : Armed (sleep p n) s → (i : ℕ) × (IsBusy (s.thread i) ⊎ ((s.thread i).pc ≡ calling))
    go (a, inr (i, h)) = (i, inr h)
    go (inr (i, h), w) = (i, inl h)
    go (inl h, inl k) = absurd (h k)
