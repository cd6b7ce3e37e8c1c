-- ===== src/Urcu/System.antt =====
-- Any number of readers and one updater, interleaved at every access to shared memory.
use userspace_rcu.Prelude.{ℕ, ◌-◌, ◌≡◌, ◌≢◌, true, false, List, [], ◌∷◌, update}
use userspace_rcu.Urcu.Reader.{
  gp_count, gp_ctr_phase, nest, Pc, running, calling, Thread, read_lock, read_unlock, resume, reset,
}
use userspace_rcu.Urcu.Updater.{
  State, idle, wake, updater, register_thread, unregister_thread, holds_registry_lock,
}

pub data Event : Type 0 where
  update_side : Event  -- the updater's next step
  interrupt : Event  -- the updater's sleep ends for another reason than a wake-up
  lock unlock : ℕ → Event  -- a thread calls `rcu_read_lock`, `rcu_read_unlock`
  continue : ℕ → Event  -- the next access of a thread inside one of these
  register unregister : ℕ → Event

unfoldable pub set_thread : ℕ → (Thread → Thread) → State → State
set_thread i f s = record s { thread = update s.thread i (f (s.thread i)) }

-- After its FUTEX_WAKE a thread has woken the updater.
unfoldable pub wake_by : Pc → State → State
wake_by calling s = record s { place = wake s.place }
wake_by _ s = s

unfoldable pub step : Event → State → State
unfolding set_thread wake_by updater read_lock read_unlock resume reset register_thread
    unregister_thread
step update_side s = updater s
step interrupt s = record s { place = wake s.place }
step (lock i) s = set_thread i (read_lock s.ctr) s
step (unlock i) s = set_thread i read_unlock s
step (continue i) s =
    let p = (s.thread i).pc in
    wake_by p (set_thread i (resume s.futex p) (record s { futex = reset s.futex p }))
step (register i) s = register_thread i s
step (unregister i) s = unregister_thread i s

-- What the callers owe: threads lock and unlock when registered and in neither function, nest no
-- deeper than the counter can hold (`urcu_assert_debug`), unlock only what they have locked, and
-- register once, unregister from outside. The registry is changed under its lock.
abbrev pub Allowed : Event → State → Type 0
Allowed update_side s = Unit {0}
Allowed interrupt s = Unit {0}
Allowed (lock i) s =
    ((s.thread i).registered ≡ true)
    × ((s.thread i).pc ≡ running)
    × (nest (s.thread i).ctr ≢ gp_ctr_phase - 1)
Allowed (unlock i) s =
    ((s.thread i).registered ≡ true) × ((s.thread i).pc ≡ running) × (nest (s.thread i).ctr ≢ 0)
Allowed (continue i) s = Unit {0}
Allowed (register i) s =
    (holds_registry_lock s.place ≡ false)
    × ((s.thread i).registered ≡ false)
    × ((s.thread i).pc ≡ running)
    × (nest (s.thread i).ctr ≡ 0)
Allowed (unregister i) s =
    (holds_registry_lock s.place ≡ false)
    × ((s.thread i).registered ≡ true)
    × ((s.thread i).pc ≡ running)
    × (nest (s.thread i).ctr ≡ 0)

abbrev pub initial : State
initial = record {
  ctr = gp_count;
  futex = 0;
  registry = [];
  cur_snap_readers = [];
  qsreaders = [];
  place = idle;
  thread = λ _. record { ctr = 0; registered = false; pc = running };
}

unfoldable pub run : List Event → State → State
run [] s = s
run (e ∷ es) s = run es (step e s)

-- each event is allowed where it happens
abbrev pub AllAllowed : List Event → State → Type 0
AllAllowed [] s = Unit {0}
AllAllowed (e ∷ es) s = Allowed e s × AllAllowed es (step e s)

-- a state that the program can come to
pub record Reachable (s : State) : Type 0 where
  pub past : List Event
  pub allowed : AllAllowed past initial
  pub arrives : run past initial ≡ s
