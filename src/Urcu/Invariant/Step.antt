-- ===== src/Urcu/Invariant/Step.antt =====
-- Threads keep the invariant, and with the updater so does every event.
use userspace_rcu.Prelude.{
  ℕ, ◌≡◌, refl, inl, inr, true, List, [], ◌∷◌, arith, ◌==◌, remove, Bool-cases, has-remove_ne,
}
use userspace_rcu.Urcu.Reader.{
  nest, Pc, running, locking, waking, resetting, calling, Thread, read_lock, read_unlock, resume,
}
use userspace_rcu.Urcu.Updater.{
  Place, idle, sleep, finish, State, register_thread, unregister_thread, wake,
}
use userspace_rcu.Urcu.System.{
  Event, update_side, interrupt, lock, unlock, continue, register, unregister, Allowed, step,
  set_thread, wake_by,
}
use userspace_rcu.Urcu.System.{initial, AllAllowed, run, Reachable}
use userspace_rcu.Urcu.Invariant.{IsReader, Emptied, Inv, by_updater, updater-Inv}

module _ {t : Thread} (r : IsReader t) where
  read_lock-IsReader : (g : ℕ) → t.registered ≡ true → t.pc ≡ running → IsReader (read_lock g t)
  unfolding read_lock
  read_lock-IsReader g h e = record {
    inside = λ _. ground arith;
    locking = λ g' p. ground (arith, r.locking g');
  }

  read_unlock-IsReader : t.registered ≡ true → t.pc ≡ running → IsReader (read_unlock t)
  unfolding read_unlock
  read_unlock-IsReader h e = record {
    inside = λ _. ground arith;
    locking = λ g' p. ground (arith, r.locking g');
  }

  resume-IsReader : (futex : ℕ) (p : Pc) → t.pc ≡ p → IsReader (resume futex p t)
  unfolding resume
  resume-IsReader futex running e = r
  resume-IsReader futex (locking g) e = record {
    inside = λ _. (r.locking g e).0;
    locking = λ g' p. ground arith;
  }
  resume-IsReader futex waking e = record { inside = r.inside; locking = λ g' p. ground arith }
  resume-IsReader futex resetting e = record { inside = r.inside; locking = λ g' p. ground arith }
  resume-IsReader futex calling e = record { inside = r.inside; locking = λ g' p. ground arith }

registered-read_lock : (g : ℕ) (t : Thread) → (read_lock g t).registered ≡ t.registered
unfolding read_lock
registered-read_lock g t = ground arith

registered-read_unlock : (t : Thread) → (read_unlock t).registered ≡ t.registered
unfolding read_unlock
registered-read_unlock t = ground arith

registered-resume : (f : ℕ) (p : Pc) (t : Thread) → (resume f p t).registered ≡ t.registered
unfolding resume
registered-resume f running t = refl
registered-resume f (locking g) t = refl
registered-resume f waking t = refl
registered-resume f resetting t = refl
registered-resume f calling t = refl

-- A thread changes nothing but itself.
set_thread-Inv :
    (i : ℕ) (f : Thread → Thread) {s : State}
    → Inv s
    → IsReader (f (s.thread i))
    → (f (s.thread i)).registered ≡ (s.thread i).registered
    → Inv (set_thread i f s)
unfolding set_thread
set_thread-Inv i f {s} v r same = record {
  parity = v.parity;
  reader = λ j. elim (Bool-cases (i == j)) [ inl e ↦ rw e r | inr e ↦ rw e (v.reader j) ];
  listed = λ j h. elim (Bool-cases (i == j)) [
    | inl e ↦ v.listed j (ground arith)
    | inr e ↦ v.listed j (ground arith)
  ];
  emptied = v.emptied;
}

wake-Emptied : (q : Place) (cur qs : List ℕ) → Emptied q cur qs → Emptied (wake q) cur qs
wake-Emptied idle cur qs h = h
wake-Emptied (sleep p n) cur qs h = tt
wake-Emptied finish cur qs h = h
wake-Emptied _ cur qs h = tt

remove-Emptied :
    (i : ℕ) (q : Place) (cur qs : List ℕ)
    → Emptied q cur qs
    → Emptied q (remove i cur) (remove i qs)
unfolding remove
remove-Emptied i idle cur qs h = (rw h.0, rw h.1)
remove-Emptied i finish cur qs h = rw h
remove-Emptied i _ cur qs h = tt

wake_by-Inv : (p : Pc) {s : State} → Inv s → Inv (wake_by p s)
unfolding wake_by
wake_by-Inv calling {s} v =
    by_updater v v.parity refl (λ j h. h) (wake-Emptied s.place _ _ v.emptied)
wake_by-Inv _ v = v

register-Inv :
    (i : ℕ) {s : State}
    → Inv s
    → nest (s.thread i).ctr ≡ 0
    → (s.thread i).pc ≡ running
    → Inv (register_thread i s)
unfolding register_thread
register-Inv i {s} v out e = record {
  parity = v.parity;
  reader = λ j. elim (Bool-cases (i == j)) [
    | inl same ↦
        rw same
          (record { inside = λ _. refl; locking = λ g p. ground (arith, (v.reader i).locking g) })
    | inr other ↦ rw other (v.reader j)
  ];
  listed = λ j h. ground (arith, v.listed j);
  emptied = v.emptied;
}

unregister-Inv :
    (i : ℕ) {s : State}
    → Inv s
    → nest (s.thread i).ctr ≡ 0
    → (s.thread i).pc ≡ running
    → Inv (unregister_thread i s)
unfolding unregister_thread
unregister-Inv i {s} v out e = record {
  parity = v.parity;
  reader = λ j. elim (Bool-cases (i == j)) [
    | inl same ↦ rw same (record { inside = λ q. absurd (q out); locking = λ g p. ground arith })
    | inr other ↦ rw other (v.reader j)
  ];
  listed = λ j h. ground (
    arith,
    v.listed j,
    has-remove_ne j i s.registry,
    has-remove_ne j i s.cur_snap_readers,
    has-remove_ne j i s.qsreaders,
  );
  emptied = remove-Emptied i s.place _ _ v.emptied;
}

-- Every event that its caller may bring about keeps the invariant.
pub step-Inv : (e : Event) {s : State} → Inv s → Allowed e s → Inv (step e s)
unfolding step
step-Inv update_side v a = updater-Inv v
step-Inv interrupt {s} v a =
    by_updater v v.parity refl (λ j h. h) (wake-Emptied s.place _ _ v.emptied)
step-Inv (lock i) {s} v (h, e, _) =
    set_thread-Inv i (read_lock s.ctr) v (read_lock-IsReader (v.reader i) s.ctr h e)
      (registered-read_lock s.ctr (s.thread i))
step-Inv (unlock i) {s} v (h, e, _) =
    set_thread-Inv i read_unlock v (read_unlock-IsReader (v.reader i) h e)
      (registered-read_unlock (s.thread i))
step-Inv (continue i) {s} v a =
    let p = (s.thread i).pc in
    wake_by-Inv p (
      set_thread-Inv i (resume s.futex p) (by_updater {s = s} v v.parity refl (λ j h. h) v.emptied)
        (resume-IsReader (v.reader i) s.futex p refl) (registered-resume s.futex p (s.thread i)))
step-Inv (register i) v (_, _, e, out) = register-Inv i v out e
step-Inv (unregister i) v (_, _, e, out) = unregister-Inv i v out e

pub run-Inv : (es : List Event) {s : State} → Inv s → AllAllowed es s → Inv (run es s)
unfolding run
run-Inv [] v a = v
run-Inv (e ∷ es) v a = run-Inv es (step-Inv e v a.0) a.1

pub initial-Inv : Inv initial
initial-Inv = record {
  parity = inl refl;
  reader = λ i. record { inside = λ h. absurd (h refl); locking = λ g e. cc };
  listed = λ i h. cc;
  emptied = (refl, refl);
}

-- Every reachable state has the invariant: a registered thread is on one of the updater's lists, a
-- thread is in a critical section only if registered, and the local lists are empty between calls.
pub Reachable-Inv : {s : State} → Reachable s → Inv s
Reachable-Inv r = rw r.arrives at (run-Inv r.past initial-Inv r.allowed)
