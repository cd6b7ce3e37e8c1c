-- ===== src/Urcu/GracePeriod/Alarm.antt =====
-- No lost wake-up: an updater that sleeps in FUTEX_WAIT has somebody who will wake it.
pub mod Threads
use userspace_rcu.Prelude.{
  ℕ, ◌+◌, ◌-◌, ◌%◌, ◌^◌, ◌≤◌, ◌≡◌, ◌≢◌, ◌⊎◌, refl, inl, inr, Bool, true, false, ◌||◌, List, [], ◌∷◌,
  ◌++◌, sym, ◌∙◌, arith, ◌==◌, ltb, leb, if◌then◌else◌, has, is_empty, remove, update, Bool-cases,
  eq_nil_of_is_empty, leb→le, has-remove_ne, has-remove_self, has-append,
}
use mathlib.Core.Path.{subst}
use userspace_rcu.Urcu.Reader.{
  gp_count, gp_ctr_phase, nest, phase, ReaderState, active_current, active_old, inactive,
  reader_state, Pc, running, locking, waking, resetting, calling, Thread, read_lock, read_unlock,
  resume, reset, minus_one,
}
use userspace_rcu.Urcu.Updater.{
  Pass, first, second, Place, idle, top, scan, test, relax, wait, call, sleep, flip, finish, State,
  updater, look_at, updater_at, start_round, end_round, to_qsreaders, sample, register_thread,
  unregister_thread, wake, input, qs_active_attempts, holds_registry_lock,
}
use userspace_rcu.Urcu.System.{
  Event, update_side, interrupt, lock, unlock, continue, register, unregister, Allowed, step,
  set_thread, wake_by, AllAllowed, run, initial, Reachable,
}
use userspace_rcu.Urcu.Invariant.{IsReader, Inv}
use userspace_rcu.Urcu.Invariant.Step.{step-Inv, Reachable-Inv}
use userspace_rcu.Urcu.GracePeriod.{Inside, Tells, reader_state-Tells}
use userspace_rcu.Urcu.GracePeriod.Pinned.{thread-updater_at, thread-wake_by}

-- a reader that is still to look at the futex, or is about to reset it
abbrev pub IsBusy : Thread → Type 0
IsBusy t = (nest t.ctr ≢ 0) ⊎ ((t.pc ≡ waking) ⊎ (t.pc ≡ resetting))

-- The futex has been reset, or a reader will see that it has to be.
abbrev pub Alarm : State → Type 0
Alarm s = (s.futex ≢ minus_one) ⊎ ((i : ℕ) × IsBusy (s.thread i))

-- The futex is still armed, or a reader is about to call FUTEX_WAKE.
abbrev pub WakeUp : State → Type 0
WakeUp s = (s.futex ≡ minus_one) ⊎ ((i : ℕ) × ((s.thread i).pc ≡ calling))

-- What holds of the futex and of the readers at each place, once the rounds without it are used up.
abbrev pub Armed : Place → State → Type 0
Armed (scan p n todo) s =
    qs_active_attempts ≤ n
    → (i : ℕ) → has i (input p s.registry s.cur_snap_readers) ≡ true
    → (has i todo ≡ true) ⊎ Alarm s
Armed (test p n) s =
    qs_active_attempts ≤ n
    → (i : ℕ) → has i (input p s.registry s.cur_snap_readers) ≡ true
    → Alarm s
Armed (wait p n) s = Alarm s
Armed (call p n) s = Alarm s
Armed (sleep p n) s = Alarm s × WakeUp s
Armed q s = Unit {0}

-- A reader that is taken off the input list is no longer to be looked at.
skip {ℓ} :
    {A : Type ℓ} (i j : ℕ) (l todo : List ℕ)
    → ((i : ℕ) → has i l ≡ true → (has i (j ∷ todo) ≡ true) ⊎ A)
    → has i (remove j l) ≡ true
    → (has i todo ≡ true) ⊎ A
skip i j l todo a h = elim (Bool-cases (i == j)) [
  | inl same ↦ absurd (ground (arith, has-remove_self j l))
  | inr other ↦ elim (a i (ground (arith, has-remove_ne i j l))) [
    | inl m ↦ inl (ground arith)
    | inr x ↦ inr x
  ]
]

look_at-Armed :
    (p : Pass) (n j : ℕ) (todo : List ℕ) (r : ReaderState) (s : State)
    → Tells r s.ctr (s.thread j).ctr
    → Armed (scan p n (j ∷ todo)) s
    → Armed (scan p n todo) (look_at p j r s)
unfolding look_at
look_at-Armed first n j todo active_current s t a m i h = skip i j s.registry todo (a m) h
look_at-Armed second n j todo active_current s t a m i h = skip i j s.cur_snap_readers todo (a m) h
look_at-Armed first n j todo inactive s t a m i h = skip i j s.registry todo (a m) h
look_at-Armed second n j todo inactive s t a m i h = skip i j s.cur_snap_readers todo (a m) h
look_at-Armed p n j todo active_old s t a m i h = inr (inr (j, inl t.0))

has-head : (i : ℕ) (l : List ℕ) → has i (i ∷ l) ≡ true
has-head i l = ground arith

-- What is not empty has a member.
member : (l : List ℕ) → is_empty l ≡ false → (i : ℕ) × (has i l ≡ true)
member [] h = cc
member (i ∷ l) h = (i, ground arith)

place-look_at : (p : Pass) (j : ℕ) (r : ReaderState) (s : State) → (look_at p j r s).place ≡ s.place
unfolding look_at
place-look_at first j active_current s = refl
place-look_at second j active_current s = refl
place-look_at first j inactive s = refl
place-look_at second j inactive s = refl
place-look_at p j active_old s = refl

end_pass-Armed : (p : Pass) (s : State) → Armed (elim p [ first ↦ flip | second ↦ finish ]) s
end_pass-Armed first s = tt
end_pass-Armed second s = tt

end_round-Armed :
    (p : Pass) (n : ℕ) (s : State)
    → Armed (test p n) s
    → Armed (end_round p n s).place (end_round p n s)
unfolding end_round
end_round-Armed p n s a = elim (Bool-cases (is_empty (input p s.registry s.cur_snap_readers))) [
  | inl e ↦ rw e (end_pass-Armed p _)
  | inr e ↦ elim (Bool-cases (leb qs_active_attempts n)) [
    | inl armed ↦
        rw (e, armed) (let (i, h) = member _ e in a (leb→le qs_active_attempts n armed) i h)
    | inr not_yet ↦ rw (e, not_yet) tt
  ]
]

start_round-Armed :
    (p : Pass) (n : ℕ) (s : State) → Armed (start_round p n s).place (start_round p n s)
unfolding start_round
start_round-Armed p n s m i h = inl h

pub updater_at-Armed :
    (q : Place) (s : State)
    → s.place ≡ q
    → Armed q s
    → Armed (updater_at q s).place (updater_at q s)
unfolding updater_at
updater_at-Armed idle s e a = elim (Bool-cases (is_empty s.registry)) [
  | inl none ↦ rw (none, e) tt
  | inr some ↦ rw some tt
]
updater_at-Armed (top p n) s e a = start_round-Armed p n s
updater_at-Armed (scan p n []) s e a = λ m i h. elim (a m i h) [ inl no_more ↦ cc | inr x ↦ x ]
updater_at-Armed (scan p n (j ∷ todo)) s e a =
    let s' = record s { place = scan p n todo } in
    subst (λ q. Armed q (look_at p j (sample j s) s')) (sym (place-look_at p j (sample j s) s'))
      (look_at-Armed p n j todo (sample j s) s' (reader_state-Tells s.ctr (s.thread j).ctr) a)
updater_at-Armed (test p n) s e a = end_round-Armed p n s a
updater_at-Armed (relax p n) s e a = tt
updater_at-Armed (wait p n) s e a = elim (Bool-cases (s.futex == minus_one)) [
  | inl armed ↦ rw armed a
  | inr moved ↦ rw moved tt
]
updater_at-Armed (call p n) s e a = elim (Bool-cases (s.futex == minus_one)) [
  | inl armed ↦ rw armed (a, inl (ground arith))
  | inr moved ↦ rw moved tt
]
updater_at-Armed (sleep p n) s e a = rw e a
updater_at-Armed flip s e a = tt
updater_at-Armed finish s e a = tt
