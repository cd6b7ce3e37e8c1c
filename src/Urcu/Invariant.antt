-- ===== src/Urcu/Invariant.antt =====
-- Who is on the lists of the updater, and who may be in a critical section.
pub mod Step
use userspace_rcu.Prelude.{
  ℕ, ◌+◌, ◌-◌, ◌%◌, ◌^◌, ◌≡◌, ◌≢◌, ◌⊎◌, refl, inl, inr, Bool, true, false, ◌||◌, List, [], ◌∷◌,
  ◌++◌, arith, ◌==◌, if◌then◌else◌, has, is_empty, remove, update, Bool-cases, eq_nil_of_is_empty,
  has-remove_ne, has-append,
}
use Prim.Native.Nat.{bit_xor}
use userspace_rcu.Urcu.Reader.{
  gp_count, gp_ctr_phase, nest, phase, ReaderState, active_current, active_old, inactive,
  reader_state, Pc, running, locking, waking, resetting, calling, Thread, read_lock, read_unlock,
  resume, reset,
}
use userspace_rcu.Urcu.Updater.{
  Pass, first, second, Place, idle, top, scan, test, relax, wait, call, sleep, flip, finish, State,
  updater, look_at, updater_at, start_round, end_round, to_qsreaders, sample, register_thread,
  unregister_thread, wake,
}
use userspace_rcu.Urcu.System.{
  Event, update_side, interrupt, lock, unlock, continue, register, unregister, Allowed, step,
  set_thread, wake_by,
}

-- What a thread may be: in a critical section, or about to be, only if it is registered.
pub record IsReader (t : Thread) : Type 0 where
  pub inside : nest t.ctr ≢ 0 → t.registered ≡ true
  pub locking : (g : ℕ) → t.pc ≡ locking g → (t.registered ≡ true) × (nest t.ctr ≡ 0)

abbrev pub on_a_list : ℕ → State → Bool
on_a_list i s = has i s.registry || has i s.cur_snap_readers || has i s.qsreaders

-- the local lists of `synchronize_rcu`, where they have to be empty
abbrev pub Emptied : Place → (cur_snap_readers qsreaders : List ℕ) → Type 0
Emptied idle cur qs = (cur ≡ []) × (qs ≡ [])
Emptied finish cur qs = cur ≡ []
Emptied _ cur qs = Unit {0}

pub record Inv (s : State) : Type 0 where
  pub parity : (s.ctr ≡ gp_count) ⊎ (s.ctr ≡ gp_ctr_phase + gp_count)
  pub reader : (i : ℕ) → IsReader (s.thread i)
  pub listed : (i : ℕ) → (s.thread i).registered ≡ true → on_a_list i s ≡ true
  pub emptied : Emptied s.place s.cur_snap_readers s.qsreaders

-- A look at one reader keeps everybody on a list.
look_at-listed :
    (p : Pass) (i : ℕ) (r : ReaderState) (s : State) (j : ℕ)
    → on_a_list j s ≡ true
    → on_a_list j (look_at p i r s) ≡ true
unfolding look_at
look_at-listed first i active_current s j h = ground (arith, has-remove_ne j i s.registry)
look_at-listed second i active_current s j h = ground (arith, has-remove_ne j i s.cur_snap_readers)
look_at-listed first i inactive s j h = ground (arith, has-remove_ne j i s.registry)
look_at-listed second i inactive s j h = ground (arith, has-remove_ne j i s.cur_snap_readers)
look_at-listed first i active_old s j h = h
look_at-listed second i active_old s j h = h

-- The updater changes no thread: what is left to show of one of its steps.
pub by_updater :
    {s t : State}
    → Inv s
    → (t.ctr ≡ gp_count) ⊎ (t.ctr ≡ gp_ctr_phase + gp_count)
    → t.thread ≡ s.thread
    → ((j : ℕ) → on_a_list j s ≡ true → on_a_list j t ≡ true)
    → Emptied t.place t.cur_snap_readers t.qsreaders
    → Inv t
by_updater v parity same listed emptied = record {
  parity = parity;
  reader = λ j. rw same (v.reader j);
  listed = λ j h. listed j (v.listed j (rw same at h));
  emptied = emptied;
}

look_at-Inv :
    (p : Pass) (i : ℕ) (r : ReaderState) {s : State}
    → Inv s
    → ((cur qs : List ℕ) → Emptied s.place cur qs)
    → Inv (look_at p i r s)
unfolding look_at
look_at-Inv first i active_current {s} v e =
    by_updater v v.parity refl (look_at-listed first i active_current s) (e _ _)
look_at-Inv second i active_current {s} v e =
    by_updater v v.parity refl (look_at-listed second i active_current s) (e _ _)
look_at-Inv first i inactive {s} v e =
    by_updater v v.parity refl (look_at-listed first i inactive s) (e _ _)
look_at-Inv second i inactive {s} v e =
    by_updater v v.parity refl (look_at-listed second i inactive s) (e _ _)
look_at-Inv first i active_old v e = v
look_at-Inv second i active_old v e = v

end_round-Inv : (p : Pass) (n : ℕ) {s : State} → Inv s → Inv (end_round p n s)
unfolding end_round
end_round-Inv first n {s} v = elim (Bool-cases (is_empty s.registry)) [
  | inl e ↦ rw e (by_updater v v.parity refl (λ j h. h) tt)
  | inr e ↦ rw e (by_updater v v.parity refl (λ j h. h) (ground arith))
]
end_round-Inv second n {s} v = elim (Bool-cases (is_empty s.cur_snap_readers)) [
  | inl e ↦ rw e (by_updater v v.parity refl (λ j h. h) (eq_nil_of_is_empty _ e))
  | inr e ↦ rw e (by_updater v v.parity refl (λ j h. h) (ground arith))
]

flip_parity :
    (c : ℕ)
    → (c ≡ gp_count) ⊎ (c ≡ gp_ctr_phase + gp_count)
    → (bit_xor c gp_ctr_phase ≡ gp_count) ⊎ (bit_xor c gp_ctr_phase ≡ gp_ctr_phase + gp_count)
flip_parity c (inl e) = inr (rw e)
flip_parity c (inr e) = inl (rw e)

updater_at-Inv : (q : Place) {s : State} → s.place ≡ q → Inv s → Inv (updater_at q s)
unfolding updater_at start_round
updater_at-Inv idle {s} e v = elim (Bool-cases (is_empty s.registry)) [
  | inl empty ↦ rw empty v
  | inr more ↦ rw more (by_updater v v.parity refl (λ j h. h) tt)
]
updater_at-Inv (top p n) e v = by_updater v v.parity refl (λ j h. h) tt
updater_at-Inv (scan p n []) e v = by_updater v v.parity refl (λ j h. h) tt
updater_at-Inv (scan p n (i ∷ todo)) {s} e v =
    look_at-Inv p i _ (by_updater {s = s} v v.parity refl (λ j h. h) tt) (λ _ _. tt)
updater_at-Inv (test p n) e v = end_round-Inv p n v
updater_at-Inv (relax p n) e v = by_updater v v.parity refl (λ j h. h) tt
updater_at-Inv (wait p n) {s} e v = by_updater v v.parity refl (λ j h. h) (ground arith)
updater_at-Inv (call p n) {s} e v = by_updater v v.parity refl (λ j h. h) (ground arith)
updater_at-Inv (sleep p n) e v = v
updater_at-Inv flip {s} e v = by_updater v (flip_parity s.ctr v.parity) refl (λ j h. h) tt
updater_at-Inv finish {s} e v =
    by_updater v v.parity refl (λ j h. ground (arith, has-append j s.qsreaders s.registry))
      (rw e at v.emptied, refl)

pub updater-Inv : {s : State} → Inv s → Inv (updater s)
unfolding updater
updater-Inv {s} v = updater_at-Inv s.place refl v
