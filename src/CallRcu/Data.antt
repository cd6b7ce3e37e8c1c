-- ===== src/CallRcu/Data.antt =====
-- Which `struct call_rcu_data` serves a call of `call_rcu`: the default one, those of the CPUs and
-- those of threads, of src/urcu-call-rcu-impl.h. Each operation runs under `call_rcu_mutex`.
use userspace_rcu.Prelude.{
  ℕ, ◌+◌, Bool, true, false, not, ◌&&◌, Option, none, some, List, [], ◌∷◌, ◌==◌, ltb, leb,
  if◌then◌else◌, update, set, get_or, replicate,
}

-- the library's integers, on native numbers
pub data ℤ : Type 0 where
  pos : ℕ → ℤ
  negsuc : ℕ → ℤ  -- -(n + 1)

abbrev pub is_positive : ℤ → Bool
is_positive (pos n) = ltb 0 n
is_positive (negsuc n) = false

abbrev pub is_zero : ℤ → Bool
is_zero (pos n) = n == 0
is_zero (negsuc n) = false

-- `cpu < 0 || cpus_array_len <= cpu`
abbrev pub is_out_of_range : (cpu cpus_array_len : ℤ) → Bool
is_out_of_range (negsuc c) len = true
is_out_of_range (pos c) (negsuc n) = true
is_out_of_range (pos c) (pos n) = leb n c

abbrev pub to_nat : ℤ → ℕ
to_nat (pos n) = n
to_nat (negsuc n) = 0

abbrev pub is_some {ℓ} : {A : Type ℓ} → Option A → Bool
is_some none = false
is_some (some a) = true

-- `struct call_rcu_data`, as far as its thread does not keep it for itself, and without `qlen`, which
-- is maintained for debugging
pub record CallRcuData : Type 0 where
  pub flags : ℕ
  pub cpu_affinity : ℤ
  pub cbs : List ℕ

pub record State : Type 0 where
  pub at : ℕ → CallRcuData  -- the structure at an address
  pub fresh : ℕ  -- the address that `malloc` returns next
  pub call_rcu_data_list : List ℕ
  pub default_call_rcu_data : Option ℕ
  pub thread_call_rcu_data : ℕ → Option ℕ
  pub per_cpu_call_rcu_data : Option (List (Option ℕ))
  pub cpus_array_len : ℤ

-- What `get_possible_cpus_array_len` returns, and whether `malloc` has memory for the array.
pub record System : Type 0 where
  pub possible_cpus : ℤ
  pub has_memory : Bool

unfoldable pub alloc_cpu_call_rcu_data : System → State → State
alloc_cpu_call_rcu_data y s =
    if not (is_zero s.cpus_array_len)
    then s
    else (if is_positive y.possible_cpus && y.has_memory
        then record s {
          cpus_array_len = y.possible_cpus;
          per_cpu_call_rcu_data = some (replicate (to_nat y.possible_cpus) none);
        }
        else record s { cpus_array_len = y.possible_cpus })

-- `call_rcu_data_init`, which returns the address it stores to `*crdpp`. It dies without memory.
unfoldable pub create_call_rcu_data : (flags : ℕ) → (cpu_affinity : ℤ) → State → ℕ × State
create_call_rcu_data flags affinity s = (
  s.fresh,
  record s {
    at = update s.at s.fresh (record { flags = flags; cpu_affinity = affinity; cbs = [] });
    fresh = s.fresh + 1;
    call_rcu_data_list = s.fresh ∷ s.call_rcu_data_list;
  },
)

unfoldable pub lookup_cpu : (cpu cpus_array_len : ℤ) → Option (List (Option ℕ)) → Option ℕ
lookup_cpu cpu len none = none
lookup_cpu cpu len (some pcpu_crdp) =
    if is_out_of_range cpu len then none else get_or pcpu_crdp (to_nat cpu) none

unfoldable pub get_cpu_call_rcu_data : (cpu : ℤ) → State → Option ℕ
unfolding lookup_cpu
get_cpu_call_rcu_data cpu s = lookup_cpu cpu s.cpus_array_len s.per_cpu_call_rcu_data

-- what the functions return
pub data Status : Type 0 where
  success : Status  -- 0
  einval : Status
  enomem : Status
  eexist : Status

-- `set_cpu_call_rcu_data` behind the test of the range
unfoldable pub store_cpu : (cpu : ℕ) → Option ℕ → Option (List (Option ℕ)) → State → Status × State
store_cpu cpu crdp none s = (enomem, s)
store_cpu cpu crdp (some pcpu_crdp) s =
    if is_some (get_or pcpu_crdp cpu none) && is_some crdp
    then (eexist, s)
    else (success, record s { per_cpu_call_rcu_data = some (set pcpu_crdp cpu crdp) })

unfoldable pub set_cpu_call_rcu_data : System → (cpu : ℤ) → Option ℕ → State → Status × State
unfolding store_cpu alloc_cpu_call_rcu_data
set_cpu_call_rcu_data y cpu crdp s =
    let s' = alloc_cpu_call_rcu_data y s in
    if is_out_of_range cpu s'.cpus_array_len
    then (einval, s')
    else store_cpu (to_nat cpu) crdp s'.per_cpu_call_rcu_data s'

-- `get_default_call_rcu_data` where the default is the first argument
unfoldable pub default_or_new : Option ℕ → State → ℕ × State
unfolding create_call_rcu_data
default_or_new (some crdp) s = (crdp, s)
default_or_new none s =
    let (crdp, s') = create_call_rcu_data 0 (negsuc 0) s in
    (crdp, record s' { default_call_rcu_data = some crdp })

unfoldable pub get_default_call_rcu_data : State → ℕ × State
unfolding default_or_new
get_default_call_rcu_data s = default_or_new s.default_call_rcu_data s

-- `crd` if it is there, else the default
unfoldable pub first_of : Option ℕ → State → ℕ × State
unfolding get_default_call_rcu_data
first_of (some crd) s = (crd, s)
first_of none s = get_default_call_rcu_data s

-- the one of the CPU, if there is an array
unfoldable pub cpu_data : (cpu : ℤ) → State → Option ℕ
unfolding get_cpu_call_rcu_data
cpu_data cpu s = if is_positive s.cpus_array_len then get_cpu_call_rcu_data cpu s else none

unfoldable pub thread_or_cpu : Option ℕ → Option ℕ → Option ℕ
thread_or_cpu (some crd) other = some crd
thread_or_cpu none other = other

-- `thread` is the caller and `cpu` what `urcu_sched_getcpu` returns to it.
unfoldable pub get_call_rcu_data : (thread : ℕ) → (cpu : ℤ) → State → ℕ × State
unfolding first_of cpu_data thread_or_cpu
get_call_rcu_data thread cpu s =
    first_of (thread_or_cpu (s.thread_call_rcu_data thread) (cpu_data cpu s)) s

unfoldable pub set_thread_call_rcu_data : (thread : ℕ) → Option ℕ → State → State
set_thread_call_rcu_data thread crdp s = record s {
  thread_call_rcu_data = update s.thread_call_rcu_data thread crdp;
}
