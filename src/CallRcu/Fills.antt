-- ===== src/CallRcu/Fills.antt =====
-- What one turn of the loop of `create_all_cpu_call_rcu_data` does to the CPUs:
-- src/urcu-call-rcu-impl.h.
use userspace_rcu.Prelude.{
  ℕ, ◌≡◌, inl, inr, refl, Bool, true, false, ◌&&◌, Option, none, some, List, ◌==◌, is_empty, get_or,
  drop, arith, Bool-cases, sym, ap, ◌∙◌,
}
use userspace_rcu.CallRcu.Data.{
  ℤ, pos, is_zero, is_some, State, System, alloc_cpu_call_rcu_data, get_cpu_call_rcu_data,
  lookup_cpu, Status, success, einval, enomem, eexist, set_cpu_call_rcu_data, store_cpu,
  is_out_of_range,
}
use userspace_rcu.CallRcu.Lifetime.{
  set_cbs, splice_to_default, is_default, call_rcu_data_free, settle,
}
use userspace_rcu.CallRcu.Cpus.{Sized, SetsCpu, store_cpu-SetsCpu}

-- the array and its length are the same
abbrev pub SameCpus : State → State → Type 0
SameCpus s t =
    (t.per_cpu_call_rcu_data ≡ s.per_cpu_call_rcu_data) × (t.cpus_array_len ≡ s.cpus_array_len)

splice-SameCpus :
    (crdp : ℕ) (o : Option ℕ) (s : State)
    → s.default_call_rcu_data ≡ o
    → SameCpus s (splice_to_default crdp s)
unfolding splice_to_default
splice-SameCpus crdp (some d) s e = elim (Bool-cases (is_empty (s.at crdp).cbs)) [
  | inl x ↦ rw x (refl, refl)
  | inr x ↦ rw x (rw e (refl, refl))
]
splice-SameCpus crdp none s e = elim (Bool-cases (is_empty (s.at crdp).cbs)) [
  | inl x ↦ rw x (refl, refl)
  | inr x ↦ rw x (rw e (refl, refl))
]

free-SameCpus : (n crdp : ℕ) (s : State) → SameCpus s (call_rcu_data_free n crdp s)
unfolding call_rcu_data_free
free-SameCpus n crdp s = elim (Bool-cases (is_default crdp s.default_call_rcu_data)) [
  | inl x ↦ rw x (refl, refl)
  | inr x ↦
      rw x (
        splice-SameCpus crdp s.default_call_rcu_data (set_cbs crdp (drop n (s.at crdp).cbs) s) refl)
]

-- What the loop keeps: the length, and the structures that are there.
pub record Keeps (l : ℤ) (s t : State) : Type 0 where
  pub sized : Sized t
  pub len : t.cpus_array_len ≡ l
  pub there :
      (c : ℕ)
      → is_some (get_cpu_call_rcu_data (pos c) s) ≡ true
      → is_some (get_cpu_call_rcu_data (pos c) t) ≡ true

pub SameCpus-Keeps :
    (l : ℤ) (s t : State) → SameCpus s t → Sized s → s.cpus_array_len ≡ l → Keeps l s t
unfolding get_cpu_call_rcu_data
SameCpus-Keeps l s t (p, q) z e = record {
  sized = record {
    array = λ a b. q ∙ z.array a (sym p ∙ b);
    unset = λ b. p ∙ z.unset (ap is_zero (sym q) ∙ b);
  };
  len = q ∙ e;
  there = λ c h.
      ap (λ x. is_some (lookup_cpu (pos c) t.cpus_array_len x)) p
      ∙ ap (λ x. is_some (lookup_cpu (pos c) x s.per_cpu_call_rcu_data)) q
      ∙ h;
}

pub Keeps-trans : (l : ℤ) (s t u : State) → Keeps l s t → Keeps l t u → Keeps l s u
Keeps-trans l s t u a b = record {
  sized = b.sized;
  len = b.len;
  there = λ c h. b.there c (a.there c h);
}

abbrev pub is_going : Status → Bool
is_going success = true
is_going eexist = true
is_going _ = false

pub Keeps-refl : (l : ℤ) (s : State) → Sized s → s.cpus_array_len ≡ l → Keeps l s s
Keeps-refl l s z e = record { sized = z; len = e; there = λ c h. h }

-- What `set_cpu_call_rcu_data` of a structure comes to, in the loop.
abbrev pub Fills : ℕ → ℤ → State → Status × State → Type 0
Fills i l s r =
    Keeps l s r.1 × (is_going r.0 ≡ true → is_some (get_cpu_call_rcu_data (pos i) r.1) ≡ true)

SetsCpu-Fills :
    (i crdp : ℕ) (l : ℤ) (s : State) (r : Status × State)
    → SetsCpu i (some crdp) s r
    → Sized r.1
    → s.cpus_array_len ≡ l
    → r.1.cpus_array_len ≡ s.cpus_array_len
    → (r.0 ≡ eexist → is_some (get_cpu_call_rcu_data (pos i) s) ≡ true)
    → Fills i l s r
SetsCpu-Fills i crdp l s (success, t) v z e q x = (
  record {
    sized = z;
    len = q ∙ e;
    there = λ c h. elim (Bool-cases (c == i)) [
      | inl a ↦
          let k : c ≡ i = ground arith in
          ap (λ n. is_some (get_cpu_call_rcu_data (pos n) t)) k ∙ ap is_some v.0
      | inr a ↦ ap is_some (v.1 c (ground arith)) ∙ h
    ];
  },
  λ g. ap is_some v.0,
)
SetsCpu-Fills i crdp l s (eexist, t) v z e q x =
    (rw v (Keeps-refl l s (rw v at z) e), λ g. rw v (x refl))
SetsCpu-Fills i crdp l s (einval, t) v z e q x =
    (rw v (Keeps-refl l s (rw v at z) e), λ g. ground arith)
SetsCpu-Fills i crdp l s (enomem, t) v z e q x =
    (rw v (Keeps-refl l s (rw v at z) e), λ g. ground arith)

store_cpu-facts :
    (i crdp : ℕ) (p : Option (List (Option ℕ))) (s : State)
    → s.per_cpu_call_rcu_data ≡ p
    → is_out_of_range (pos i) s.cpus_array_len ≡ false
    → let r = store_cpu i (some crdp) p s in
      (r.1.cpus_array_len ≡ s.cpus_array_len)
      × (r.0 ≡ eexist → is_some (get_cpu_call_rcu_data (pos i) s) ≡ true)
unfolding store_cpu get_cpu_call_rcu_data lookup_cpu
store_cpu-facts i crdp none s e r = (refl, λ x. ground arith)
store_cpu-facts i crdp (some p) s e r =
    let g : is_some (get_cpu_call_rcu_data (pos i) s) ≡ is_some (get_or p i none) =
      ap (λ x. is_some (lookup_cpu (pos i) s.cpus_array_len x)) e ∙ rw r refl in
    elim (Bool-cases (is_some (get_or p i none) && true)) [
      | inl x ↦ rw x (refl, λ y. g ∙ ground arith)
      | inr x ↦ rw x (refl, λ y. ground arith)
    ]

pub alloc-known :
    (y : System) (s : State) → is_zero s.cpus_array_len ≡ false → alloc_cpu_call_rcu_data y s ≡ s
unfolding alloc_cpu_call_rcu_data
alloc-known y s e = rw e refl

pub set_cpu-Fills :
    (y : System) (i crdp : ℕ) (l : ℤ) (s : State)
    → Sized s
    → s.cpus_array_len ≡ l
    → is_zero l ≡ false
    → Fills i l s (set_cpu_call_rcu_data y (pos i) (some crdp) s)
unfolding set_cpu_call_rcu_data
set_cpu-Fills y i crdp l s z e n =
    rw (alloc-known y s (ap is_zero e ∙ n))
      (elim (Bool-cases (is_out_of_range (pos i) s.cpus_array_len)) [
        | inl o ↦ rw o (Keeps-refl l s z e, λ g. ground arith)
        | inr o ↦ rw o (
            let v = store_cpu-SetsCpu i (some crdp) s.per_cpu_call_rcu_data s refl o z in
            let f = store_cpu-facts i crdp s.per_cpu_call_rcu_data s refl o in
            SetsCpu-Fills i crdp l s _ v.0 v.1 e f.0 f.1)
      ])

pub settle-Fills :
    (st : Status) (crdp i : ℕ) (l : ℤ) (s t : State)
    → Fills i l s (st, t)
    → let r = settle st crdp t in
      Keeps l s r.1 × (r.0 ≡ success → is_some (get_cpu_call_rcu_data (pos i) r.1) ≡ true)
unfolding settle
settle-Fills success crdp i l s t (k, f) = (k, λ g. f refl)
settle-Fills eexist crdp i l s t (k, f) =
    let m = SameCpus-Keeps l t _ (free-SameCpus 0 crdp t) k.sized k.len in
    (Keeps-trans l s t _ k m, λ g. m.there i (f refl))
settle-Fills einval crdp i l s t (k, f) = (
  Keeps-trans l s t _ k (SameCpus-Keeps l t _ (free-SameCpus 0 crdp t) k.sized k.len),
  λ g. ground arith,
)
settle-Fills enomem crdp i l s t (k, f) = (
  Keeps-trans l s t _ k (SameCpus-Keeps l t _ (free-SameCpus 0 crdp t) k.sized k.len),
  λ g. ground arith,
)
