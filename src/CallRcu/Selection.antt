-- ===== src/CallRcu/Selection.antt =====
-- The structure that serves a call of `call_rcu`, and those of the CPUs: src/urcu-call-rcu-impl.h.
use userspace_rcu.Prelude.{
  ℕ, ◌+◌, ◌≡◌, ◌⊎◌, inl, inr, refl, true, Option, none, some, [], ◌∷◌, ◌++◌, ◌==◌, if◌then◌else◌,
  arith, has,
}
use userspace_rcu.CallRcu.Data.{
  ℤ, State, get_cpu_call_rcu_data, get_call_rcu_data, first_of, thread_or_cpu, cpu_data,
}
use userspace_rcu.CallRcu.Lifetime.{queue_callback, call_rcu}
use userspace_rcu.CallRcu.Callbacks.{
  count-append, pending, WellFormed, set_cbs-pending, set_cbs-WellFormed,
}
use userspace_rcu.CallRcu.Free.{get_default-Served}

-- Threads and CPUs refer to structures that are there.
pub record Live (s : State) : Type 0 where
  pub thread : (t d : ℕ) → s.thread_call_rcu_data t ≡ some d → has d s.call_rcu_data_list ≡ true
  pub cpu : (c : ℤ) (d : ℕ) → get_cpu_call_rcu_data c s ≡ some d → has d s.call_rcu_data_list ≡ true

-- The structure is there, and no callback has moved.
abbrev Chosen : State → ℕ × State → Type 0
Chosen s r =
    WellFormed r.1
    × (has r.0 r.1.call_rcu_data_list ≡ true)
    × ((h : ℕ) → pending h r.1 ≡ pending h s)

first_of-Chosen :
    (c : Option ℕ) (s : State)
    → WellFormed s
    → ((d : ℕ) → c ≡ some d → has d s.call_rcu_data_list ≡ true)
    → Chosen s (first_of c s)
unfolding first_of
first_of-Chosen none s w m = let v = get_default-Served s w in (v.well_formed, v.served_by, v.same)
first_of-Chosen (some d) s w m = (w, m d refl, λ h. refl)

cpu_data-Live :
    (c : ℤ) (d : ℕ) (s : State) → Live s → cpu_data c s ≡ some d → has d s.call_rcu_data_list ≡ true
unfolding cpu_data
cpu_data-Live c d s v e = ground (arith, v.cpu c d)

thread_or_cpu-cases :
    (a b : Option ℕ) (d : ℕ) → thread_or_cpu a b ≡ some d → (a ≡ some d) ⊎ (b ≡ some d)
unfolding thread_or_cpu
thread_or_cpu-cases none b d e = inr e
thread_or_cpu-cases (some x) b d e = inl e

get_call_rcu_data-Chosen :
    (t : ℕ) (c : ℤ) (s : State) → WellFormed s → Live s → Chosen s (get_call_rcu_data t c s)
unfolding get_call_rcu_data
get_call_rcu_data-Chosen t c s w v = first_of-Chosen _ s w (λ d e.
    elim (thread_or_cpu-cases _ _ d e) [ inl x ↦ v.thread t d x | inr x ↦ cpu_data-Live c d s v x ])

-- `call_rcu` queues its callback, once, to a structure that is on the list, whichever of the thread's,
-- the CPU's and the default one that is, and leaves all other callbacks queued as they are.
pub call_rcu-queues_once :
    (thread : ℕ) (cpu : ℤ) (head : ℕ) (s : State)
    → WellFormed s
    → Live s
    → let s' = call_rcu thread cpu head s in
      ((h : ℕ) → pending h s' ≡ pending h s + (if h == head then 1 else 0)) × WellFormed s'
unfolding call_rcu queue_callback
call_rcu-queues_once thread cpu head s w v =
    let r = get_call_rcu_data thread cpu s in
    let a = get_call_rcu_data-Chosen thread cpu s w v in
    let cbs = (r.1.at r.0).cbs in
    (
      λ h. ground (
        arith,
        set_cbs-pending h r.0 (cbs ++ head ∷ []) r.1 a.0 a.1,
        a.2 h,
        count-append h cbs (head ∷ []),
      ),
      set_cbs-WellFormed r.0 (cbs ++ head ∷ []) r.1 a.0,
    )
