-- ===== src/Urcu/GracePeriod/Wait.antt =====
-- The guarantee of `synchronize_rcu`.
use userspace_rcu.Prelude.{ℕ, ◌≡◌, refl, List, [], ◌∷◌, true, false, arith, has, is_empty, inl, sym}
use mathlib.Core.Path.{subst}
use userspace_rcu.Urcu.Updater.{State, Place, idle, finish, updater, updater_at}
use userspace_rcu.Urcu.System.{Event, update_side, step, AllAllowed, run, Reachable}
use userspace_rcu.Urcu.Invariant.{Inv}
use userspace_rcu.Urcu.Invariant.Step.{step-Inv, Reachable-Inv}
use userspace_rcu.Urcu.GracePeriod.{Inside, stage, IsHeld}
use userspace_rcu.Urcu.GracePeriod.Pinned.{Pinned, step-Pinned, thread-updater_at}

-- the thread does not leave its critical section during the events
abbrev pub StaysInside : ℕ → List Event → State → Type 0
StaysInside i [] s = Inside i s
StaysInside i (e ∷ es) s = Inside i s × StaysInside i es (step e s)

StaysInside-now : (i : ℕ) (es : List Event) (s : State) → StaysInside i es s → Inside i s
StaysInside-now i [] s h = h
StaysInside-now i (e ∷ es) s h = h.0

run-Pinned :
    (es : List Event) (i : ℕ) {s : State}
    → Inv s
    → AllAllowed es s
    → Pinned i s
    → StaysInside i es s
    → Pinned i (run es s)
unfolding run
run-Pinned [] i v a p h = p
run-Pinned (e ∷ es) i {s} v a p h =
    run-Pinned es i (step-Inv e v a.0) a.1 (step-Pinned e i v a.0 p (StaysInside-now i es _ h.1))
      h.1

has-ne_empty : (i : ℕ) (l : List ℕ) → has i l ≡ true → is_empty l ≡ false
has-ne_empty i [] h = cc
has-ne_empty i (j ∷ js) h = refl

-- A reader is on the registry when `synchronize_rcu` begins.
registry-has : (i : ℕ) {s : State} → Inv s → s.place ≡ idle → Inside i s → has i s.registry ≡ true
registry-has i {s} v e h =
    let on = v.listed i ((v.reader i).inside h) in
    let rest = rw e at v.emptied in ground (arith, on, rest.0, rest.1)

begin-Pinned :
    (i : ℕ) {s : State} → Inv s → s.place ≡ idle → Inside i s → Pinned i (updater_at idle s)
unfolding updater_at
begin-Pinned i {s} v e h =
    let on = registry-has i v e h in
    rw (has-ne_empty i s.registry on) (record { inside = h; held = inl on })

-- whether `synchronize_rcu` has returned, or is past its waits
abbrev pub Done : Place → Type 0
Done idle = Unit {0}
Done finish = Unit {0}
Done _ = ⊥

not-Done_of_Pinned : {i : ℕ} {s : State} → Pinned i s → ¬ Done s.place
not-Done_of_Pinned {i} {s} p d = go s.place p.held d
  where
    go : (q : Place) → IsHeld (stage q) i s → Done q → ⊥
    go idle h d = h
    go finish h d = h
    go _ h d = d

-- The grace-period guarantee: when `synchronize_rcu` begins in a reachable state, and a thread is
-- then inside a read-side critical section and does not leave it, then whatever all the threads do,
-- in any interleaving, `synchronize_rcu` has not come to its end.
pub synchronize_rcu-waits :
    {s : State} (es : List Event) (i : ℕ)
    → Reachable s
    → s.place ≡ idle
    → AllAllowed es (step update_side s)
    → StaysInside i es (step update_side s)
    → ¬ Done (run es (step update_side s)).place
unfolding step updater
synchronize_rcu-waits {s} es i r e a h =
    let v = Reachable-Inv r in
    let still = rw (thread-updater_at s.place s) at (StaysInside-now i es _ h) in
    not-Done_of_Pinned (
      run-Pinned es i (step-Inv update_side v tt) a
        (subst (λ q. Pinned i (updater_at q s)) (sym e) (begin-Pinned i v e still)) h)
