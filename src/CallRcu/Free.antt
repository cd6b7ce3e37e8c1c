-- ===== src/CallRcu/Free.antt =====
-- No callback is lost when a `struct call_rcu_data` is freed: src/urcu-call-rcu-impl.h.
use userspace_rcu.Prelude.{
  ℕ, ◌+◌, ◌≡◌, ◌≢◌, inl, inr, refl, true, false, Option, none, some, List, [], ◌∷◌, ◌++◌, is_empty,
  remove, drop, take, arith, has, has-remove_self, has-remove_ne, Bool-cases, sym, ap, ◌∙◌,
}
use userspace_rcu.CallRcu.Data.{negsuc, State, get_default_call_rcu_data, default_or_new}
use userspace_rcu.CallRcu.Lifetime.{set_cbs, splice_to_default, is_default, call_rcu_data_free}
use userspace_rcu.CallRcu.Callbacks.{
  count, pending, count-append, count-take-drop, WellFormed, set_cbs-pending, set_cbs-WellFormed,
  create_call_rcu_data-WellFormed, create_call_rcu_data-pending, count_all-remove, distinct-remove,
}

-- What is known of the structure that a call is served by.
pub record Served (s : State) (r : ℕ × State) : Type 0 where
  pub well_formed : WellFormed r.1
  pub served_by : has r.0 r.1.call_rcu_data_list ≡ true
  pub same : (h : ℕ) → pending h r.1 ≡ pending h s
  pub keeps :
      (i : ℕ)
      → has i s.call_rcu_data_list ≡ true
      → ((r.1.at i).cbs ≡ (s.at i).cbs) × (has i r.1.call_rcu_data_list ≡ true)
  apart :
      (i : ℕ)
      → has i s.call_rcu_data_list ≡ true
      → is_default i s.default_call_rcu_data ≡ false
      → (r.0 ≢ i) × (is_default i r.1.default_call_rcu_data ≡ false)

default_or_new-Served :
    (d : Option ℕ) (s : State)
    → s.default_call_rcu_data ≡ d
    → WellFormed s
    → Served s (default_or_new d s)
unfolding default_or_new
default_or_new-Served (some d) s e w = record {
  well_formed = w;
  served_by = w.default d e;
  same = λ h. refl;
  keeps = λ i m. (refl, m);
  apart = λ i m n. (ground (arith, rw e at n), n);
}
default_or_new-Served none s e w =
    let w' = create_call_rcu_data-WellFormed 0 (negsuc 0) s w in
    record {
      well_formed = record { once = w'.once; older = w'.older; default = λ d x. ground (arith, x) };
      served_by = ground arith;
      same = λ h. create_call_rcu_data-pending h 0 (negsuc 0) s w;
      keeps = λ i m. ground (arith, w.older i m);
      apart = λ i m n. (ground (arith, w.older i m), ground (arith, w.older i m));
    }

pub get_default-Served : (s : State) → WellFormed s → Served s (get_default_call_rcu_data s)
unfolding get_default_call_rcu_data
get_default-Served s w = default_or_new-Served s.default_call_rcu_data s refl w

cbs-set_cbs_self : (i : ℕ) (l : List ℕ) (s : State) → ((set_cbs i l s).at i).cbs ≡ l
unfolding set_cbs
cbs-set_cbs_self i l s = ground arith

cbs-set_cbs_ne :
    (i j : ℕ) (l : List ℕ) (s : State) → i ≢ j → ((set_cbs i l s).at j).cbs ≡ (s.at j).cbs
unfolding set_cbs
cbs-set_cbs_ne i j l s n = ground arith

count_empty : (h : ℕ) (l : List ℕ) → is_empty l ≡ true → count h l ≡ 0
count_empty h [] e = refl
count_empty h (c ∷ l) e = ground arith

-- What is left when the structure is empty and about to be unlinked.
record Emptied (crdp : ℕ) (s t : State) : Type 0 where
  pub well_formed : WellFormed t
  pub same : (h : ℕ) → pending h t ≡ pending h s
  empty : (h : ℕ) → count h (t.at crdp).cbs ≡ 0
  apart : is_default crdp t.default_call_rcu_data ≡ false
  linked : (i : ℕ) → has i s.call_rcu_data_list ≡ true → has i t.call_rcu_data_list ≡ true

splice-Emptied :
    (crdp : ℕ) (s : State)
    → WellFormed s
    → has crdp s.call_rcu_data_list ≡ true
    → is_default crdp s.default_call_rcu_data ≡ false
    → Emptied crdp s (splice_to_default crdp s)
unfolding splice_to_default
splice-Emptied crdp s w m n =
    let r = get_default_call_rcu_data s in
    let v = get_default-Served s w in
    let d = r.0 in
    let dcbs = (r.1.at d).cbs in
    let ccbs = (r.1.at crdp).cbs in
    let t = set_cbs d (dcbs ++ ccbs) r.1 in
    let tw = set_cbs-WellFormed d (dcbs ++ ccbs) r.1 v.well_formed in
    elim (Bool-cases (is_empty (s.at crdp).cbs)) [
      | inl e ↦ rw e record {
        well_formed = w;
        same = λ h. refl;
        empty = λ h. count_empty h _ e;
        apart = n;
        linked = λ i m. m;
      }
      | inr e ↦ rw e record {
        well_formed = set_cbs-WellFormed crdp [] t tw;
        same = λ h. omega (
          arith,
          set_cbs-pending h crdp [] t tw (v.keeps crdp m).1,
          set_cbs-pending h d (dcbs ++ ccbs) r.1 v.well_formed v.served_by,
          ap (count h) (cbs-set_cbs_ne d crdp (dcbs ++ ccbs) r.1 (v.apart crdp m n).0),
          v.same h,
          count-append h dcbs ccbs,
        );
        empty = λ h. ap (count h) (cbs-set_cbs_self crdp [] t);
        apart = (v.apart crdp m n).1;
        linked = λ i l. (v.keeps i l).1;
      }
    ]

unlink-WellFormed :
    (i : ℕ) (s : State)
    → WellFormed s
    → is_default i s.default_call_rcu_data ≡ false
    → WellFormed (record s { call_rcu_data_list = remove i s.call_rcu_data_list })
unlink-WellFormed i s w n = record {
  once = distinct-remove i s.call_rcu_data_list w.once;
  older = λ j m. ground (
    arith,
    w.older j,
    has-remove_ne j i s.call_rcu_data_list,
    has-remove_self i s.call_rcu_data_list,
  );
  default = λ d e.
      let ne : i ≢ d = ground (arith, rw e at n) in
      has-remove_ne d i s.call_rcu_data_list (λ x. ne (sym x)) ∙ w.default d e;
}

pub free-loses_nothing :
    (n crdp : ℕ) (s : State)
    → WellFormed s
    → has crdp s.call_rcu_data_list ≡ true
    → is_default crdp s.default_call_rcu_data ≡ false
    → let s' = call_rcu_data_free n crdp s in
      ((h : ℕ) → pending h s ≡ count h (take n (s.at crdp).cbs) + pending h s')
      × (has crdp s'.call_rcu_data_list ≡ false)
      × ((i : ℕ)
          → i ≢ crdp
          → has i s.call_rcu_data_list ≡ true
          → has i s'.call_rcu_data_list ≡ true)
      × WellFormed s'
unfolding call_rcu_data_free
free-loses_nothing n crdp s w m a =
    let cbs = (s.at crdp).cbs in
    let t = set_cbs crdp (drop n cbs) s in
    let tw = set_cbs-WellFormed crdp (drop n cbs) s w in
    let u = splice_to_default crdp t in
    let v = splice-Emptied crdp t tw m a in
    rw a (
      λ h. omega (
        arith,
        set_cbs-pending h crdp (drop n cbs) s w m,
        v.same h,
        count-take-drop h n cbs,
        count_all-remove h crdp u.at u.call_rcu_data_list (v.empty h),
      ),
      has-remove_self crdp _,
      λ i ne l. has-remove_ne i crdp _ ne ∙ v.linked i l,
      unlink-WellFormed crdp _ v.well_formed v.apart,
    )
