-- ===== src/CallRcu/Lifetime.antt =====
-- How callbacks come to a `struct call_rcu_data` and leave it when it is freed:
-- src/urcu-call-rcu-impl.h.
use userspace_rcu.Prelude.{
  ℕ, zero, suc, ◌+◌, Bool, false, not, ◌&&◌, Option, none, some, List, [], ◌∷◌, ◌++◌, ◌==◌,
  if◌then◌else◌, is_empty, remove, update, drop,
}
use userspace_rcu.CallRcu.Data.{
  ℤ, pos, is_positive, to_nat, is_some, State, System, alloc_cpu_call_rcu_data,
  create_call_rcu_data, get_cpu_call_rcu_data, Status, success, einval, enomem, eexist,
  set_cpu_call_rcu_data, get_default_call_rcu_data, get_call_rcu_data,
}

-- the callbacks of one structure replaced
unfoldable pub set_cbs : ℕ → List ℕ → State → State
set_cbs crdp cbs s = record s { at = update s.at crdp (record (s.at crdp) { cbs = cbs }) }

-- `_call_rcu`, whose further steps are in the other module
unfoldable pub queue_callback : (head crdp : ℕ) → State → State
unfolding set_cbs
queue_callback head crdp s = set_cbs crdp ((s.at crdp).cbs ++ head ∷ []) s

unfoldable pub call_rcu : (thread : ℕ) → (cpu : ℤ) → (head : ℕ) → State → State
unfolding get_call_rcu_data queue_callback
call_rcu thread cpu head s =
    let (crdp, s') = get_call_rcu_data thread cpu s in queue_callback head crdp s'

-- `__cds_wfcq_splice_blocking` from a structure to the default one
unfoldable pub splice_to_default : ℕ → State → State
unfolding get_default_call_rcu_data set_cbs
splice_to_default crdp s =
    if is_empty (s.at crdp).cbs
    then s
    else (let (default, s') = get_default_call_rcu_data s in
        set_cbs crdp [] (set_cbs default ((s'.at default).cbs ++ (s'.at crdp).cbs) s'))

abbrev pub is_default : ℕ → Option ℕ → Bool
is_default crdp none = false
is_default crdp (some default) = crdp == default

-- `_call_rcu_data_free` of a structure that is there: its thread still invokes the first
-- `n` of its callbacks before it stops.
unfoldable pub call_rcu_data_free : (n crdp : ℕ) → State → State
unfolding splice_to_default set_cbs
call_rcu_data_free n crdp s =
    if is_default crdp s.default_call_rcu_data
    then s
    else (let s' = splice_to_default crdp (set_cbs crdp (drop n (s.at crdp).cbs) s) in
        record s' { call_rcu_data_list = remove crdp s'.call_rcu_data_list })

-- the last loop of `free_all_cpu_call_rcu_data`, behind its `synchronize_rcu`; `n` of an address is
-- how many callbacks its thread still invokes.
unfoldable pub free_all : (ℕ → ℕ) → List (Option ℕ) → State → State
unfolding call_rcu_data_free
free_all n [] s = s
free_all n (none ∷ crdps) s = free_all n crdps s
free_all n (some crdp ∷ crdps) s = free_all n crdps (call_rcu_data_free (n crdp) crdp s)

-- the first loop of `free_all_cpu_call_rcu_data`, from `cpu`
unfoldable pub take_all : System → (k cpu : ℕ) → State → List (Option ℕ) × State
unfolding get_cpu_call_rcu_data set_cpu_call_rcu_data
take_all y zero cpu s = ([], s)
take_all y (suc k) cpu s =
    let crdp = get_cpu_call_rcu_data (pos cpu) s in
    let s' = if is_some crdp then (set_cpu_call_rcu_data y (pos cpu) none s).1 else s in
    let (crdps, s'') = take_all y k (cpu + 1) s' in (crdp ∷ crdps, s'')

unfoldable pub free_all_cpu_call_rcu_data : System → (ℕ → ℕ) → State → State
unfolding take_all free_all
free_all_cpu_call_rcu_data y n s =
    if is_positive s.cpus_array_len && y.has_memory
    then (let (crdps, s') = take_all y (to_nat s.cpus_array_len) 0 s in free_all n crdps s')
    else s

-- what the loop of `create_all_cpu_call_rcu_data` does with what `set_cpu_call_rcu_data` returned
unfoldable pub settle : Status → (crdp : ℕ) → State → Status × State
unfolding call_rcu_data_free
settle success crdp s = (success, s)
settle eexist crdp s = (success, call_rcu_data_free 0 crdp s)
settle einval crdp s = (einval, call_rcu_data_free 0 crdp s)
settle enomem crdp s = (enomem, call_rcu_data_free 0 crdp s)

-- One turn of the loop of `create_all_cpu_call_rcu_data`, which goes on where it returns 0. `others`
-- is what other threads do between the creation and the storage, when the mutex is released.
unfoldable pub create_one : System → (ℕ → State → State) → (flags i : ℕ) → State → Status × State
unfolding get_cpu_call_rcu_data create_call_rcu_data set_cpu_call_rcu_data settle
create_one y others flags i s =
    let (crdp, s1) = create_call_rcu_data flags (pos i) s in
    let (status, s2) = set_cpu_call_rcu_data y (pos i) (some crdp) (others i s1) in
    if is_some (get_cpu_call_rcu_data (pos i) s) then (success, s) else settle status crdp s2

-- the loop from `i`
unfoldable pub create_all : System → (ℕ → State → State) → (flags k i : ℕ) → State → Status × State
unfolding create_one
create_all y others flags zero i s = (success, s)
create_all y others flags (suc k) i s =
    let (status, s') = create_one y others flags i s in
    elim status [ success ↦ create_all y others flags k (i + 1) s' | other ↦ (other, s') ]

unfoldable pub create_all_cpu_call_rcu_data :
    System → (ℕ → State → State) → (flags : ℕ) → State → Status × State
unfolding alloc_cpu_call_rcu_data create_all
create_all_cpu_call_rcu_data y others flags s =
    let s' = alloc_cpu_call_rcu_data y s in
    if not (is_positive s'.cpus_array_len)
    then (einval, s')
    else if not (is_some s'.per_cpu_call_rcu_data)
    then (enomem, s')
    else create_all y others flags (to_nat s'.cpus_array_len) 0 s'

-- `urcu_call_rcu_exit` where the default is the first argument
unfoldable pub exit_with : (n : ℕ) → Option ℕ → State → State
unfolding call_rcu_data_free
exit_with n none s = s
exit_with n (some crdp) s =
    if is_empty (s.at crdp).cbs
    then call_rcu_data_free n crdp (record s { default_call_rcu_data = none })
    else s

unfoldable pub urcu_call_rcu_exit : (n : ℕ) → State → State
unfolding exit_with
urcu_call_rcu_exit n s = exit_with n s.default_call_rcu_data s

-- the loop of `call_rcu_after_fork_child`: no thread of the parent is left to invoke a callback.
unfoldable pub free_others : List ℕ → State → State
unfolding call_rcu_data_free
free_others [] s = s
free_others (crdp ∷ crdps) s = free_others crdps (call_rcu_data_free 0 crdp s)

unfoldable pub call_rcu_after_fork_child : (thread : ℕ) → State → State
unfolding get_default_call_rcu_data free_others
call_rcu_after_fork_child thread s =
    if is_empty s.call_rcu_data_list
    then s
    else (let (default, s') =
          get_default_call_rcu_data (record s { default_call_rcu_data = none }) in
        free_others s'.call_rcu_data_list (record s' {
          cpus_array_len = pos 0;
          per_cpu_call_rcu_data = none;
          thread_call_rcu_data = update s'.thread_call_rcu_data thread none;
        }))
