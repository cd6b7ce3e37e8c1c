-- ===== src/CallRcu/DataTests.antt =====
-- Structures `call_rcu_data` of a thread and of a CPU, and a completion with two works.
use userspace_rcu.Prelude.{
  ℕ, zero, suc, ◌≡◌, refl, true, false, not, ◌&&◌, ◌==◌, none, some, List, [], ◌∷◌, ◌++◌, arith,
  if◌then◌else◌, has, replicate,
}
use userspace_rcu.CallRcu.Data.{ℤ, pos, negsuc, CallRcuData, State, System, get_cpu_call_rcu_data}
use userspace_rcu.CallRcu.Lifetime.{call_rcu_after_fork_child}
use userspace_rcu.CallRcu.Callbacks.{count, pending, WellFormed}
use userspace_rcu.CallRcu.Child.{fork_child-merges}
use userspace_rcu.CallRcu.Selection.{Live}
use userspace_rcu.CallRcu.Cpus.{Sized}
use userspace_rcu.CallRcu.Barrier.{
  Event, barrier, complete, barrier_step, work_step, step, run, queue_works,
}
use userspace_rcu.CallRcu.Completion.{is_queued, is_done, has_returned, number}
use userspace_rcu.CallRcu.Completion.Return.{rcu_barrier-waits, completion-freed_last}

abbrev data_with : List ℕ → CallRcuData
data_with cbs = record { flags = 0; cpu_affinity = negsuc 0; cbs = cbs }

-- The default structure is 1; 2 is thread 4's and CPU 1's.
abbrev two : State
two = record {
  at = λ i. if i == 1 then data_with (5 ∷ []) else data_with (7 ∷ 8 ∷ []);
  fresh = 3;
  call_rcu_data_list = 2 ∷ 1 ∷ [];
  default_call_rcu_data = some 1;
  thread_call_rcu_data = λ t. if t == 4 then some 2 else none;
  per_cpu_call_rcu_data = some (none ∷ some 2 ∷ []);
  cpus_array_len = pos 2;
}

two-WellFormed : WellFormed two
two-WellFormed = record {
  once = refl;
  older = λ i m. ground arith;
  default = λ d e. ground (arith, e);
}

two-cpu : (c : ℤ) (d : ℕ) → get_cpu_call_rcu_data c two ≡ some d → has d (2 ∷ 1 ∷ []) ≡ true
unfolding get_cpu_call_rcu_data
two-cpu (negsuc n) d e = ground arith
two-cpu (pos zero) d e = ground arith
two-cpu (pos (suc zero)) d e = ground arith
two-cpu (pos (suc (suc n))) d e = ground arith

two-Live : Live two
two-Live = record { thread = λ t d e. ground (arith, e); cpu = two-cpu }

two-Sized : Sized two
two-Sized = record { array = λ p e. ground (arith, e); unset = λ e. ground arith }

fork_child-merges_example :
    let s = call_rcu_after_fork_child 4 two in
    (d : ℕ) × ((s.call_rcu_data_list ≡ d ∷ [])
      × (s.default_call_rcu_data ≡ some d)
      × ((h : ℕ) → count h (s.at d).cbs ≡ pending h two))
fork_child-merges_example = fork_child-merges 4 two two-WellFormed refl

abbrev poor : System
poor = record { possible_cpus = pos 2; has_memory = false }

abbrev rich : System
rich = record { possible_cpus = pos 2; has_memory = true }

-- before any use of the CPUs
abbrev no_cpus : State
no_cpus = record two { per_cpu_call_rcu_data = none; cpus_array_len = pos 0 }

-- `rcu_barrier` sleeps before the two works are invoked.
abbrev slept : List Event
slept = replicate 4 barrier ++ complete 2 ∷ complete 1 ∷ []

abbrev through : List Event
through = slept ++ replicate 4 (complete 1) ++ barrier ∷ barrier ∷ barrier ∷ []

rcu_barrier-waits_example : is_queued ((run through (queue_works (2 ∷ 1 ∷ []))).work 2) ≡ false
unfolding run step barrier_step work_step
rcu_barrier-waits_example = rcu_barrier-waits (2 ∷ 1 ∷ []) refl (omega arith) through refl 2 refl

completion-freed_last_example :
    let s = run through (queue_works (2 ∷ 1 ∷ [])) in
    (s.misused ≡ false)
    × (s.freed ≡ (has_returned s.place && (number (λ w. not (is_done w)) s.work (2 ∷ 1 ∷ []) == 0)))
completion-freed_last_example = completion-freed_last (2 ∷ 1 ∷ []) refl (omega arith) through
