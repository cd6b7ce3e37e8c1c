-- ===== src/CallRcu/Child.antt =====
-- What the child of a fork keeps of the callbacks of its parent: src/urcu-call-rcu-impl.h.
use userspace_rcu.Prelude.{
  ℕ, ◌≡◌, inl, inr, refl, true, false, not, ◌&&◌, ◌||◌, none, some, List, [], ◌∷◌, ◌==◌,
  if◌then◌else◌, is_empty, remove, update, drop, arith, has, distinct, has-remove_self,
  has-remove_ne, Bool-cases, ap, ◌∙◌,
}
use userspace_rcu.CallRcu.Data.{pos, State, get_default_call_rcu_data, default_or_new}
use userspace_rcu.CallRcu.Lifetime.{
  set_cbs, splice_to_default, is_default, call_rcu_data_free, free_others,
  call_rcu_after_fork_child,
}
use userspace_rcu.CallRcu.Callbacks.{count, count_all, pending, WellFormed}
use userspace_rcu.CallRcu.Free.{free-loses_nothing, get_default-Served}

splice-default :
    (crdp d : ℕ) (s : State)
    → s.default_call_rcu_data ≡ some d
    → ((splice_to_default crdp s).default_call_rcu_data ≡ some d)
      × ((splice_to_default crdp s).call_rcu_data_list ≡ s.call_rcu_data_list)
unfolding splice_to_default
splice-default crdp d s e = elim (Bool-cases (is_empty (s.at crdp).cbs)) [
  | inl x ↦ rw x (e, refl)
  | inr x ↦ rw x (rw e (refl, refl))
]

free-default :
    (n crdp d : ℕ) (s : State)
    → s.default_call_rcu_data ≡ some d
    → ((call_rcu_data_free n crdp s).default_call_rcu_data ≡ some d)
      × ((call_rcu_data_free n crdp s).call_rcu_data_list
          ≡ (if crdp == d then s.call_rcu_data_list else remove crdp s.call_rcu_data_list))
unfolding call_rcu_data_free
free-default n crdp d s e =
    let k = ap (is_default crdp) e in
    elim (Bool-cases (crdp == d)) [
      | inl x ↦ rw (k ∙ x, x) (e, refl)
      | inr x ↦
          let r = splice-default crdp d (set_cbs crdp (drop n (s.at crdp).cbs) s) e in
          rw (k ∙ x, x) (r.0, ap (remove crdp) r.1)
    ]

free-of_default :
    (n crdp : ℕ) (s : State)
    → is_default crdp s.default_call_rcu_data ≡ true
    → call_rcu_data_free n crdp s ≡ s
unfolding call_rcu_data_free
free-of_default n crdp s e = rw e refl

-- What the loop makes of the list `l` of structures, where `d` is the default.
record Merged (d : ℕ) (l : List ℕ) (s t : State) : Type 0 where
  well_formed : WellFormed t
  default : t.default_call_rcu_data ≡ some d
  same : (h : ℕ) → pending h t ≡ pending h s
  list :
      (i : ℕ)
      → has i t.call_rcu_data_list ≡ (has i s.call_rcu_data_list && (not (has i l) || (i == d)))

free_others-Merged :
    (d : ℕ) (l : List ℕ) (s : State)
    → WellFormed s
    → s.default_call_rcu_data ≡ some d
    → distinct l ≡ true
    → ((i : ℕ) → has i l ≡ true → has i s.call_rcu_data_list ≡ true)
    → Merged d l s (free_others l s)
unfolding free_others
free_others-Merged d [] s w e u m = record {
  well_formed = w;
  default = e;
  same = λ h. refl;
  list = λ i. ground arith;
}
free_others-Merged d (c ∷ l) s w e u m = elim (Bool-cases (c == d)) [
  | inl x ↦
      let v = free_others-Merged d l s w e (ground arith) (λ i h. m i (ground arith)) in
      rw (free-of_default 0 c s (ap (is_default c) e ∙ x)) record {
        well_formed = v.well_formed;
        default = v.default;
        same = v.same;
        list = λ i. ground (arith, v.list i);
      }
  | inr x ↦
      let t = call_rcu_data_free 0 c s in
      let r = free-loses_nothing 0 c s w (m c (ground arith)) (ap (is_default c) e ∙ x) in
      let f = free-default 0 c d s e in
      let k : t.call_rcu_data_list ≡ remove c s.call_rcu_data_list = f.1 ∙ rw x refl in
      let v =
        free_others-Merged d l t r.3 f.0 (ground arith)
          (λ i h. r.2 i (ground arith) (m i (ground arith))) in
      record {
        well_formed = v.well_formed;
        default = v.default;
        same = λ h. omega (arith, v.same h, r.0 h);
        list = λ i. ground (
          arith,
          v.list i,
          ap (has i) k,
          has-remove_self c s.call_rcu_data_list,
          has-remove_ne i c s.call_rcu_data_list,
        );
      }
]

default_of :
    (s : State)
    → s.default_call_rcu_data ≡ none
    → let r = get_default_call_rcu_data s in r.1.default_call_rcu_data ≡ some r.0
unfolding get_default_call_rcu_data default_or_new
default_of s e = rw e refl

-- a list that has one node once
singleton : (d : ℕ) (l : List ℕ) → distinct l ≡ true → ((i : ℕ) → has i l ≡ (i == d)) → l ≡ d ∷ []
singleton d [] u m = ground (arith, m d)
singleton d (x ∷ []) u m = ground (arith, m x)
singleton d (x ∷ y ∷ l) u m = ground (arith, m x, m y)

Merged-all :
    (d : ℕ) (s t : State)
    → has d s.call_rcu_data_list ≡ true
    → Merged d s.call_rcu_data_list s t
    → (t.call_rcu_data_list ≡ d ∷ []) × ((h : ℕ) → count h (t.at d).cbs ≡ pending h s)
Merged-all d s t m v =
    let one =
      singleton d t.call_rcu_data_list v.well_formed.once (λ i. ground (arith, m, v.list i)) in
    (one, λ h. omega (arith, v.same h, ap (count_all h t.at) one))

-- The child of a fork in which `call_rcu` has been used is left with one structure, the default; on
-- its queue are all the callbacks that were queued anywhere, as often as before.
pub fork_child-merges :
    (thread : ℕ) (s : State)
    → WellFormed s
    → is_empty s.call_rcu_data_list ≡ false
    → let s' = call_rcu_after_fork_child thread s in
      (d : ℕ) × ((s'.call_rcu_data_list ≡ d ∷ [])
        × (s'.default_call_rcu_data ≡ some d)
        × ((h : ℕ) → count h (s'.at d).cbs ≡ pending h s))
unfolding call_rcu_after_fork_child
fork_child-merges thread s w n =
    let s0 = record s { default_call_rcu_data = none } in
    let w0 : WellFormed s0 = record {
      once = w.once;
      older = w.older;
      default = λ d e. ground arith;
    } in
    let r = get_default_call_rcu_data s0 in
    let v = get_default-Served s0 w0 in
    let d = r.0 in
    let l = r.1.call_rcu_data_list in
    let s1 = record r.1 {
      cpus_array_len = pos 0;
      per_cpu_call_rcu_data = none;
      thread_call_rcu_data = update r.1.thread_call_rcu_data thread none;
    } in
    let x = v.well_formed in
    let w1 : WellFormed s1 = record { once = x.once; older = x.older; default = x.default } in
    let m = free_others-Merged d l s1 w1 (default_of s0 refl) x.once (λ i h. h) in
    let a = Merged-all d s1 _ v.served_by m in rw n (d, (a.0, m.default, λ h. a.1 h ∙ v.same h))
