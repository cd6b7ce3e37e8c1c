-- ===== src/CallRcu/Cpus.antt =====
-- The structures of the CPUs, and what the functions that set them return:
-- src/urcu-call-rcu-impl.h.
use userspace_rcu.Prelude.{
  ℕ, zero, suc, ◌<◌, ◌≡◌, ◌≢◌, inl, inr, refl, true, false, ◌&&◌, Option, none, some, List, [], ◌∷◌,
  set, arith, Bool-cases, sym, ap, ◌∙◌, length, length-set, get_or, length-replicate,
}
use userspace_rcu.CallRcu.Data.{
  ℤ, pos, negsuc, is_positive, is_zero, to_nat, is_some, State, System, alloc_cpu_call_rcu_data,
  get_cpu_call_rcu_data, Status, success, set_cpu_call_rcu_data, lookup_cpu, store_cpu,
  is_out_of_range,
}

-- The array, where there is one, has an entry for each CPU.
pub record Sized (s : State) : Type 0 where
  pub array :
      (p : List (Option ℕ)) → s.per_cpu_call_rcu_data ≡ some p → s.cpus_array_len ≡ pos (length p)
  pub unset : is_zero s.cpus_array_len ≡ true → s.per_cpu_call_rcu_data ≡ none

pub get_or-set_self :
    (p : List (Option ℕ)) (i : ℕ) (v : Option ℕ) → i < length p → get_or (set p i v) i none ≡ v
get_or-set_self [] i v h = elim h [ ]
get_or-set_self (x ∷ p) zero v h = refl
get_or-set_self (x ∷ p) (suc i) v h = get_or-set_self p i v (omega arith)

get_or-set_ne :
    (p : List (Option ℕ)) (i j : ℕ) (v : Option ℕ)
    → i ≢ j
    → get_or (set p i v) j none ≡ get_or p j none
get_or-set_ne [] i j v n = refl
get_or-set_ne (x ∷ p) zero zero v n = absurd (n refl)
get_or-set_ne (x ∷ p) zero (suc j) v n = refl
get_or-set_ne (x ∷ p) (suc i) zero v n = refl
get_or-set_ne (x ∷ p) (suc i) (suc j) v n = get_or-set_ne p i j v (λ e. n (ap suc e))

pub positive_lem : (l : ℤ) → is_positive l ≡ true → (l ≡ pos (to_nat l)) × (is_zero l ≡ false)
positive_lem (pos n) e = (refl, ground arith)
positive_lem (negsuc n) e = ground arith

in_range : (c : ℕ) (l : ℤ) (n : ℕ) → is_out_of_range (pos c) l ≡ false → l ≡ pos n → c < n
in_range c (pos m) n e q = ground arith
in_range c (negsuc m) n e q = ground arith

pub alloc-Sized : (y : System) (s : State) → Sized s → Sized (alloc_cpu_call_rcu_data y s)
unfolding alloc_cpu_call_rcu_data
alloc-Sized y s z = elim (Bool-cases (is_zero s.cpus_array_len)) [
  | inl e ↦ rw e (elim (Bool-cases (is_positive y.possible_cpus && y.has_memory)) [
    | inl m ↦ rw m (
        let (q, nz) = positive_lem y.possible_cpus (ground arith) in
        record {
          array = λ p h.
              q ∙ ground (arith, h, length-replicate {A = Option ℕ} (to_nat y.possible_cpus) none);
          unset = λ h. ground arith;
        })
    | inr m ↦ rw m record { array = λ p h. ground (arith, z.unset e); unset = λ h. z.unset e }
  ])
  | inr e ↦ rw e z
]

-- What `set_cpu_call_rcu_data` does, by what it returns; `s` is the state with the array.
abbrev pub SetsCpu : ℕ → Option ℕ → State → Status × State → Type 0
SetsCpu cpu crdp s (success, t) =
    (get_cpu_call_rcu_data (pos cpu) t ≡ crdp)
    × ((c : ℕ) → c ≢ cpu → get_cpu_call_rcu_data (pos c) t ≡ get_cpu_call_rcu_data (pos c) s)
SetsCpu cpu crdp s (status, t) = t ≡ s

pub store_cpu-SetsCpu :
    (cpu : ℕ) (crdp : Option ℕ) (p : Option (List (Option ℕ))) (s : State)
    → s.per_cpu_call_rcu_data ≡ p
    → is_out_of_range (pos cpu) s.cpus_array_len ≡ false
    → Sized s
    → SetsCpu cpu crdp s (store_cpu cpu crdp p s) × Sized (store_cpu cpu crdp p s).1
unfolding store_cpu get_cpu_call_rcu_data
store_cpu-SetsCpu cpu crdp none s e i z = (refl, z)
store_cpu-SetsCpu cpu crdp (some p) s e i z =
    elim (Bool-cases (is_some (get_or p cpu none) && is_some crdp)) [
      | inl x ↦ rw x (refl, z)
      | inr x ↦
          let len = z.array p e in
          let same : (c : ℕ)
              → get_cpu_call_rcu_data (pos c) s ≡ lookup_cpu (pos c) s.cpus_array_len (some p) =
            λ c. ap (lookup_cpu (pos c) s.cpus_array_len) e in
          rw x (
            (
              rw i (get_or-set_self p cpu crdp (in_range cpu s.cpus_array_len (length p) i len)),
              λ c ne. rw (get_or-set_ne p cpu c crdp (λ q. ne (sym q))) (sym (same c)),
            ),
            record {
              array = λ q h. len ∙ ground (arith, h, length-set p cpu crdp);
              unset = λ h. ground (arith, z.unset h);
            },
          )
    ]

-- `set_cpu_call_rcu_data`: when it returns 0, the CPU has the structure that was given and every other
-- CPU the one it had; when it returns an error, nothing has changed but that the array may have been
-- allocated. The array keeps the length that `cpus_array_len` says.
pub set_cpu-sets :
    (y : System) (cpu : ℤ) (crdp : Option ℕ) (s : State)
    → Sized s
    → SetsCpu (to_nat cpu) crdp (alloc_cpu_call_rcu_data y s) (set_cpu_call_rcu_data y cpu crdp s)
      × Sized (set_cpu_call_rcu_data y cpu crdp s).1
unfolding set_cpu_call_rcu_data
set_cpu-sets y (negsuc n) crdp s z = (refl, alloc-Sized y s z)
set_cpu-sets y (pos cpu) crdp s z =
    let t = alloc_cpu_call_rcu_data y s in
    elim (Bool-cases (is_out_of_range (pos cpu) t.cpus_array_len)) [
      | inl e ↦ rw e (refl, alloc-Sized y s z)
      | inr e ↦
          rw e (store_cpu-SetsCpu cpu crdp t.per_cpu_call_rcu_data t refl e (alloc-Sized y s z))
    ]

-- There is no array although its length is known.
record Broken (l : ℤ) (t : State) : Type 0 where
  len : t.cpus_array_len ≡ l
  known : is_positive l ≡ true
  absent : t.per_cpu_call_rcu_data ≡ none
