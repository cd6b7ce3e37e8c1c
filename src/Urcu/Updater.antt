-- ===== src/Urcu/Updater.antt =====
-- The thread that holds `rcu_gp_lock`: `synchronize_rcu`, `wait_for_readers` and `wait_gp` of
-- src/urcu.c, with `rcu_register_thread` and `rcu_unregister_thread`, which change the registry.
use userspace_rcu.Prelude.{
  ℕ, ◌+◌, Bool, true, false, List, [], ◌∷◌, ◌++◌, ◌==◌, ltb, leb, if◌then◌else◌, is_empty, remove,
  update,
}
use userspace_rcu.Prelude.{◌%◌, ◌^◌}
use userspace_rcu.Urcu.Reader.{
  gp_ctr_phase, ReaderState, active_current, active_old, inactive, reader_state, minus_one, Thread,
}
use Prim.Native.Nat.{bit_xor}

-- RCU_QS_ACTIVE_ATTEMPTS
abbrev pub qs_active_attempts : ℕ
qs_active_attempts = 100

-- the two calls of `wait_for_readers`
pub data Pass : Type 0 where
  first : Pass  -- the readers of `registry`, which may go to `cur_snap_readers`
  second : Pass  -- those of `cur_snap_readers`

-- Where the updater stands, with the locals of `wait_for_readers` that are live there.
pub data Place : Type 0 where
  idle : Place  -- outside of `synchronize_rcu`
  top : Pass → (wait_loops : ℕ) → Place  -- head of `for (;;)`
  scan : Pass → (wait_loops : ℕ) → (todo : List ℕ) → Place  -- the readers still to be looked at
  test : Pass → (wait_loops : ℕ) → Place  -- before `cds_list_empty(input_readers)`
  relax : Pass → (wait_loops : ℕ) → Place  -- at `caa_cpu_relax`, the registry unlocked
  wait : Pass → (wait_loops : ℕ) → Place  -- in `wait_gp`, before the load of the futex
  call : Pass → (wait_loops : ℕ) → Place  -- before FUTEX_WAIT
  sleep : Pass → (wait_loops : ℕ) → Place  -- asleep in FUTEX_WAIT
  flip : Place  -- between the two calls of `wait_for_readers`
  finish : Place  -- behind them

pub record State : Type 0 where
  pub ctr : ℕ  -- rcu_gp.ctr
  pub futex : ℕ  -- rcu_gp.futex, an int32_t
  pub registry : List ℕ
  pub cur_snap_readers : List ℕ
  pub qsreaders : List ℕ
  pub place : Place
  pub thread : ℕ → Thread

-- `input_readers` of a call
abbrev pub input : Pass → (registry cur_snap_readers : List ℕ) → List ℕ
input first registry cur = registry
input second registry cur = cur

-- `cds_list_move` to `qsreaders`
unfoldable pub to_qsreaders : Pass → ℕ → State → State
to_qsreaders first i s = record s { registry = remove i s.registry; qsreaders = i ∷ s.qsreaders }
to_qsreaders second i s = record s {
  cur_snap_readers = remove i s.cur_snap_readers;
  qsreaders = i ∷ s.qsreaders;
}

-- The `switch` on a reader's state. In the second call `cur_snap_readers` is NULL.
unfoldable pub look_at : Pass → ℕ → ReaderState → State → State
unfolding to_qsreaders
look_at first i active_current s = record s {
  registry = remove i s.registry;
  cur_snap_readers = i ∷ s.cur_snap_readers;
}
look_at second i active_current s = to_qsreaders second i s
look_at p i inactive s = to_qsreaders p i s
look_at p i active_old s = s

-- `wait_loops` at the start of a round, and the decrement of the futex once it is at its limit
unfoldable pub start_round : Pass → ℕ → State → State
start_round p n s =
    let loops : ℕ = if ltb n qs_active_attempts then n + 1 else n in
    record s {
      futex = if leb qs_active_attempts loops then (s.futex + minus_one) % 2 ^ 32 else s.futex;
      place = scan p loops (input p s.registry s.cur_snap_readers);
    }

-- behind the scan
unfoldable pub end_round : Pass → ℕ → State → State
end_round p n s =
    if is_empty (input p s.registry s.cur_snap_readers)
    then (record s {
      futex = if leb qs_active_attempts n then 0 else s.futex;
      place = elim p [ first ↦ flip | second ↦ finish ];
    })
    else record s { place = if leb qs_active_attempts n then wait p n else relax p n }

-- `urcu_common_reader_state(&rcu_gp, &index->ctr)`
abbrev pub sample : ℕ → State → ReaderState
sample i s = reader_state s.ctr (s.thread i).ctr

-- The next step of the updater. `sleep` has none of its own.
unfoldable pub updater_at : Place → State → State
updater_at idle s = if is_empty s.registry then s else record s { place = top first 0 }
updater_at (top p n) s = start_round p n s
updater_at (scan p n []) s = record s { place = test p n }
updater_at (scan p n (i ∷ todo)) s = look_at p i (sample i s) (record s { place = scan p n todo })
updater_at (test p n) s = end_round p n s
updater_at (relax p n) s = record s { place = top p n }
updater_at (wait p n) s = record s { place = if s.futex == minus_one then call p n else top p n }
updater_at (call p n) s = record s { place = if s.futex == minus_one then sleep p n else top p n }
updater_at (sleep p n) s = s
updater_at flip s = record s { ctr = bit_xor s.ctr gp_ctr_phase; place = top second 0 }
updater_at finish s = record s {
  registry = s.qsreaders ++ s.registry;
  qsreaders = [];
  place = idle;
}

unfoldable pub updater : State → State
unfolding updater_at start_round look_at end_round
updater s = updater_at s.place s

-- whether the updater holds `rcu_registry_lock`
abbrev pub holds_registry_lock : Place → Bool
holds_registry_lock idle = false
holds_registry_lock (relax _ _) = false
holds_registry_lock (wait _ _) = false
holds_registry_lock (call _ _) = false
holds_registry_lock (sleep _ _) = false
holds_registry_lock _ = true

unfoldable pub register_thread : ℕ → State → State
register_thread i s = record s {
  registry = i ∷ s.registry;
  thread = update s.thread i (record (s.thread i) { registered = true });
}

-- `cds_list_del` takes the node off whichever list it is on.
unfoldable pub unregister_thread : ℕ → State → State
unregister_thread i s = record s {
  registry = remove i s.registry;
  cur_snap_readers = remove i s.cur_snap_readers;
  qsreaders = remove i s.qsreaders;
  thread = update s.thread i (record (s.thread i) { registered = false });
}

-- FUTEX_WAKE, or an interruption: a sleeping updater looks at the futex again.
abbrev pub wake : Place → Place
wake (sleep p n) = wait p n
wake (scan p n todo) = scan p n todo
wake q = q
