-- ===== src/CallRcu/CreateAll.antt =====
-- `create_all_cpu_call_rcu_data` leaves no CPU without a structure: src/urcu-call-rcu-impl.h.
use userspace_rcu.Prelude.{ℕ, ◌+◌, ◌<◌, ◌≡◌, true, false}
use userspace_rcu.CallRcu.Data.{
  ℤ, pos, is_zero, is_some, State, System, get_cpu_call_rcu_data, Status, success,
}
use userspace_rcu.CallRcu.Lifetime.{create_all}
use userspace_rcu.CallRcu.Cpus.{Sized}
use userspace_rcu.CallRcu.Fills.{Keeps}

-- Between the creation of a structure and its storage other threads neither free the array nor take
-- a structure from a CPU.
abbrev pub Gentle : (ℕ → State → State) → Type 0
Gentle others =
    (i : ℕ) (l : ℤ) (s : State) → Sized s → s.cpus_array_len ≡ l → Keeps l s (others i s)

module _ (y : System) (others : ℕ → State → State) (gentle : Gentle others) (flags : ℕ) (l : ℤ)
    (known : is_zero l ≡ false) where
  -- the rest of the loop behind one turn
  abbrev rest : ℕ → ℕ → Status × State → Status × State
  rest k i (success, t) = create_all y others flags k (i + 1) t
  rest k i (other, t) = (other, t)

  -- A loop over `k` CPUs from `i` that succeeds leaves none of them without a structure.
  abbrev Loop : ℕ → ℕ → State → Status × State → Type 0
  Loop i n s r =
      Keeps l s r.1
      × (r.0 ≡ success
          → ((c : ℕ) → c < i → is_some (get_cpu_call_rcu_data (pos c) s) ≡ true)
          → (c : ℕ) → c < n
          → is_some (get_cpu_call_rcu_data (pos c) r.1) ≡ true)
