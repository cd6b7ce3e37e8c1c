-- ===== src/Urcu/GracePeriod/Pinned.antt =====
-- A thread that stays in its critical section keeps the updater from finishing.
use userspace_rcu.Prelude.{
  ℕ, ◌-◌, ◌≡◌, ◌≢◌, refl, inl, inr, Bool, true, ◌∷◌, sym, ◌∙◌, arith, has, has-remove_ne,
}
use userspace_rcu.Urcu.Reader.{
  gp_ctr_phase, nest, phase, ReaderState, active_current, active_old, inactive, Pc, running,
  locking, calling, Thread, read_lock, read_unlock, resume,
}
use userspace_rcu.Urcu.Updater.{
  Pass, first, second, Place, idle, scan, test, sleep, State, look_at, updater_at, start_round,
  end_round, sample, wake,
}
use userspace_rcu.Urcu.System.{
  Event, update_side, interrupt, lock, unlock, continue, register, unregister, Allowed, step,
  set_thread, wake_by,
}
use userspace_rcu.Urcu.Invariant.{IsReader, Inv}
use userspace_rcu.Urcu.GracePeriod.{
  Inside, Stage, outside, before, between, behind, stage, Held, IsHeld, updater_at-Held,
}

pub record Pinned (i : ℕ) (s : State) : Type 0 where
  pub inside : Inside i s
  pub held : IsHeld (stage s.place) i s

thread-look_at :
    (p : Pass) (i : ℕ) (r : ReaderState) (s : State) → (look_at p i r s).thread ≡ s.thread
unfolding look_at
thread-look_at first i active_current s = refl
thread-look_at second i active_current s = refl
thread-look_at first i inactive s = refl
thread-look_at second i inactive s = refl
thread-look_at p i active_old s = refl

-- The updater writes to no thread.
pub thread-updater_at : (q : Place) (s : State) → (updater_at q s).thread ≡ s.thread
unfolding updater_at start_round end_round
thread-updater_at (scan p n (i ∷ todo)) s =
    thread-look_at p i (sample i s) (record s { place = scan p n todo })
thread-updater_at idle s = ground arith
thread-updater_at (test p n) s = ground arith
thread-updater_at _ s = refl

wake-stage : (q : Place) → stage (wake q) ≡ stage q
wake-stage idle = refl
wake-stage (sleep p n) = refl
wake-stage _ = refl

pub thread-wake_by : (p : Pc) (s : State) → (wake_by p s).thread ≡ s.thread
unfolding wake_by
thread-wake_by calling s = refl
thread-wake_by _ s = refl

Held-mono :
    (st : Stage) {reg cur reg' cur' : Bool} (g v v' : ℕ)
    → Held st reg cur g v
    → (reg ≡ true → reg' ≡ true)
    → (cur ≡ true → cur' ≡ true)
    → phase v' ≡ phase v
    → Held st reg' cur' g v'
Held-mono outside g v v' h r c e = h
Held-mono before g v v' (inl h) r c e = inl (r h)
Held-mono before g v v' (inr h) r c e = inr (c h.0, e ∙ h.1)
Held-mono between g v v' h r c e = (c h.0, e ∙ h.1)
Held-mono behind g v v' h r c e = (c h.0, λ k. h.1 (sym e ∙ k))

-- What a change that is not the updater's has to leave alone.
Pinned-transfer :
    {i : ℕ} {s t : State}
    → Pinned i s
    → Inside i t
    → stage t.place ≡ stage s.place
    → t.ctr ≡ s.ctr
    → (has i s.registry ≡ true → has i t.registry ≡ true)
    → (has i s.cur_snap_readers ≡ true → has i t.cur_snap_readers ≡ true)
    → phase (t.thread i).ctr ≡ phase (s.thread i).ctr
    → Pinned i t
Pinned-transfer {s} p h st c r q e = record {
  inside = h;
  held = rw (st, c) (Held-mono (stage s.place) s.ctr _ _ p.held r q e);
}

phase-read_lock :
    (g : ℕ) (t : Thread)
    → nest t.ctr ≢ 0
    → nest t.ctr ≢ gp_ctr_phase - 1
    → phase (read_lock g t).ctr ≡ phase t.ctr
unfolding read_lock
phase-read_lock g t h k = ground arith

phase-read_unlock :
    (t : Thread)
    → nest t.ctr ≢ 0
    → nest (read_unlock t).ctr ≢ 0
    → phase (read_unlock t).ctr ≡ phase t.ctr
unfolding read_unlock
phase-read_unlock t h k = ground arith

ctr-resume :
    (f : ℕ) (p : Pc) (t : Thread)
    → IsReader t
    → t.pc ≡ p
    → nest t.ctr ≢ 0
    → (resume f p t).ctr ≡ t.ctr
unfolding resume
ctr-resume f (locking g) t r e h = absurd (h (r.locking g e).1)
ctr-resume f running t r e h = refl
ctr-resume f _ t r e h = refl

wake_by-Pinned : (q : Pc) {i : ℕ} {s : State} → Pinned i s → Pinned i (wake_by q s)
unfolding wake_by
wake_by-Pinned calling {s} p =
    Pinned-transfer p p.inside (wake-stage s.place) refl (λ r. r) (λ r. r) refl
wake_by-Pinned _ p = p

pub step-Pinned :
    (e : Event) (i : ℕ) {s : State}
    → Inv s
    → Allowed e s
    → Pinned i s
    → Inside i (step e s)
    → Pinned i (step e s)
unfolding step set_thread
step-Pinned update_side i {s} v a p h = record {
  inside = h;
  held = updater_at-Held s.place i s refl v p.inside p.held;
}
step-Pinned interrupt i {s} v a p h =
    Pinned-transfer p h (wake-stage s.place) refl (λ r. r) (λ r. r) refl
step-Pinned (lock j) i {s} v a p h =
    Pinned-transfer p h refl refl (λ r. r) (λ r. r)
      (ground (arith, p.inside, phase-read_lock s.ctr (s.thread j)))
step-Pinned (unlock j) i {s} v a p h =
    Pinned-transfer p h refl refl (λ r. r) (λ r. r) (ground (arith, phase-read_unlock (s.thread j)))
step-Pinned (continue j) i {s} v a p h =
    let q = (s.thread j).pc in
    wake_by-Pinned q (
      Pinned-transfer p (rw thread-wake_by at h) refl refl (λ r. r) (λ r. r)
        (ground (arith, p.inside, ctr-resume s.futex q (s.thread j) (v.reader j) refl)))
step-Pinned (register j) i v a p h =
    Pinned-transfer p h refl refl (λ r. ground arith) (λ r. r) (ground arith)
step-Pinned (unregister j) i {s} v a p h =
    Pinned-transfer p h refl refl (λ r. ground (arith, has-remove_ne i j s.registry))
      (λ r. ground (arith, has-remove_ne i j s.cur_snap_readers)) (ground arith)
