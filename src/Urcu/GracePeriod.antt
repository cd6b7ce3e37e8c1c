-- ===== src/Urcu/GracePeriod.antt =====
-- The guarantee of `synchronize_rcu`: it waits for every critical section that it finds.
pub mod Pinned
pub mod Wait
pub mod Alarm
use userspace_rcu.Prelude.{
  ℕ, ◌+◌, ◌-◌, ◌%◌, ◌^◌, ◌≡◌, ◌≢◌, ◌⊎◌, refl, inl, inr, Bool, true, false, ◌||◌, List, [], ◌∷◌,
  ◌++◌, arith, ◌==◌, if◌then◌else◌, has, is_empty, remove, update, Bool-cases, eq_nil_of_is_empty,
  has-remove_ne, has-append,
}
use Prim.Native.Nat.{bit_xor}
use userspace_rcu.Urcu.Reader.{
  gp_count, gp_ctr_phase, nest, phase, ReaderState, active_current, active_old, inactive,
  reader_state, Pc, running, locking, waking, resetting, calling, Thread, read_lock, read_unlock,
  resume, reset,
}
use userspace_rcu.Urcu.Updater.{
  Pass, first, second, Place, idle, top, scan, test, relax, wait, call, sleep, flip, finish, State,
  updater, look_at, updater_at, start_round, end_round, to_qsreaders, sample, register_thread,
  unregister_thread, wake,
}
use userspace_rcu.Urcu.System.{
  Event, update_side, interrupt, lock, unlock, continue, register, unregister, Allowed, step,
  set_thread, wake_by, AllAllowed, run,
}
use userspace_rcu.Urcu.Invariant.{IsReader, on_a_list, Emptied, Inv, by_updater, updater-Inv}
use userspace_rcu.Urcu.Invariant.Step.{step-Inv}

-- `rcu_read_ongoing`
abbrev pub Inside : ℕ → State → Type 0
Inside i s = nest (s.thread i).ctr ≢ 0

pub data Stage : Type 0 where
  outside : Stage  -- outside of `synchronize_rcu`, or at its end
  before : Stage  -- in the first call of `wait_for_readers`
  between : Stage  -- between the calls
  behind : Stage  -- in the second call

abbrev pub of_pass : Pass → Stage
of_pass first = before
of_pass second = behind

abbrev pub stage : Place → Stage
stage idle = outside
stage (top p _) = of_pass p
stage (scan p _ _) = of_pass p
stage (test p _) = of_pass p
stage (relax p _) = of_pass p
stage (wait p _) = of_pass p
stage (call p _) = of_pass p
stage (sleep p _) = of_pass p
stage flip = between
stage finish = outside

-- What keeps the updater from finishing before thread `i` is done: a reader stays on the input list
-- of the first call, or has joined `cur_snap_readers` with the phase that is current before the
-- flip; behind the flip it is on `cur_snap_readers` with the other phase.
abbrev pub Held : Stage → (in_registry in_cur_snap : Bool) → (gp_ctr v : ℕ) → Type 0
Held outside reg cur g v = ⊥
Held before reg cur g v = (reg ≡ true) ⊎ ((cur ≡ true) × (phase v ≡ phase g))
Held between reg cur g v = (cur ≡ true) × (phase v ≡ phase g)
Held behind reg cur g v = (cur ≡ true) × (phase v ≢ phase g)

abbrev pub IsHeld : Stage → ℕ → State → Type 0
IsHeld st i s = Held st (has i s.registry) (has i s.cur_snap_readers) s.ctr (s.thread i).ctr

-- what a reader's state says of its counter
abbrev pub Tells : ReaderState → (gp_ctr v : ℕ) → Type 0
Tells inactive g v = nest v ≡ 0
Tells active_current g v = phase v ≡ phase g
Tells active_old g v = (nest v ≢ 0) × (phase v ≢ phase g)

pub reader_state-Tells : (g v : ℕ) → Tells (reader_state g v) g v
unfolding reader_state
reader_state-Tells g v = ground arith

look_at-Held :
    (p : Pass) (i j : ℕ) (r : ReaderState) (s : State)
    → Inside i s
    → Tells r s.ctr (s.thread j).ctr
    → stage s.place ≡ of_pass p
    → IsHeld (of_pass p) i s
    → IsHeld (stage (look_at p j r s).place) i (look_at p j r s)
unfolding look_at
look_at-Held first i j active_current s h t e q =
    rw e (ground (arith, has-remove_ne i j s.registry))
look_at-Held first i j inactive s h t e q = rw e (ground (arith, has-remove_ne i j s.registry))
look_at-Held p i j active_old s h t e q = rw e q
look_at-Held second i j active_current s h t e q =
    rw e (ground (arith, has-remove_ne i j s.cur_snap_readers))
look_at-Held second i j inactive s h t e q =
    rw e (ground (arith, has-remove_ne i j s.cur_snap_readers))

end_round-Held :
    (p : Pass) (n i : ℕ) (s : State)
    → IsHeld (of_pass p) i s
    → IsHeld (stage (end_round p n s).place) i (end_round p n s)
unfolding end_round
end_round-Held first n i s q = ground (arith, eq_nil_of_is_empty s.registry)
end_round-Held second n i s q = ground (arith, eq_nil_of_is_empty s.cur_snap_readers)

-- The flip makes the current phase the other one.
phase-flip :
    (c v : ℕ)
    → (c ≡ gp_count) ⊎ (c ≡ gp_ctr_phase + gp_count)
    → phase v ≡ phase c
    → phase v ≢ phase (bit_xor c gp_ctr_phase)
phase-flip c v (inl e) h = rw e (λ k. ground arith)
phase-flip c v (inr e) h = rw e (λ k. ground arith)

pub updater_at-Held :
    (q : Place) (i : ℕ) (s : State)
    → s.place ≡ q
    → Inv s
    → Inside i s
    → IsHeld (stage q) i s
    → IsHeld (stage (updater_at q s).place) i (updater_at q s)
unfolding updater_at start_round
updater_at-Held idle i s e v h q = absurd q
updater_at-Held (top p n) i s e v h q = q
updater_at-Held (scan p n []) i s e v h q = q
updater_at-Held (scan p n (j ∷ todo)) i s e v h q =
    look_at-Held p i j _ (record s { place = scan p n todo }) h (reader_state-Tells s.ctr _) refl q
updater_at-Held (test p n) i s e v h q = end_round-Held p n i s q
updater_at-Held (relax p n) i s e v h q = q
updater_at-Held (wait p n) i s e v h q = ground arith
updater_at-Held (call p n) i s e v h q = ground arith
updater_at-Held (sleep p n) i s e v h q = rw e q
updater_at-Held flip i s e v h q = (q.0, phase-flip s.ctr _ v.parity q.1)
updater_at-Held finish i s e v h q = absurd q
