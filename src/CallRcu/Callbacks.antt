-- ===== src/CallRcu/Callbacks.antt =====
-- The callbacks that are queued to the structures `call_rcu_data`: src/urcu-call-rcu-impl.h.
use userspace_rcu.Prelude.{
  ℕ, zero, suc, ◌+◌, ◌<◌, ◌≡◌, inl, inr, refl, true, false, some, List, [], ◌∷◌, ◌++◌, ◌==◌,
  if◌then◌else◌, remove, update, drop, take, arith, has, distinct, has-remove_ne, Bool-cases,
}
use userspace_rcu.CallRcu.Data.{ℤ, CallRcuData, State, create_call_rcu_data}
use userspace_rcu.CallRcu.Lifetime.{set_cbs}

-- how often a callback stands on a queue
abbrev pub count : (head : ℕ) → List ℕ → ℕ
count h [] = 0
count h (c ∷ cbs) = if h == c then suc (count h cbs) else count h cbs

-- how often it stands on the queues of the structures of a list
abbrev pub count_all : (head : ℕ) → (ℕ → CallRcuData) → List ℕ → ℕ
count_all h at [] = 0
count_all h at (i ∷ is) = count h (at i).cbs + count_all h at is

abbrev pub pending : (head : ℕ) → State → ℕ
pending h s = count_all h s.at s.call_rcu_data_list

pub count-append : (h : ℕ) (l m : List ℕ) → count h (l ++ m) ≡ count h l + count h m
count-append h [] m = omega arith
count-append h (c ∷ l) m = ground (arith, count-append h l m)

pub count-take-drop : (h n : ℕ) (l : List ℕ) → count h l ≡ count h (take n l) + count h (drop n l)
count-take-drop h zero l = omega arith
count-take-drop h (suc n) [] = omega arith
count-take-drop h (suc n) (c ∷ l) = ground (arith, count-take-drop h n l)

-- The structures are distinct and older than the next one, and the default is one of them.
pub record WellFormed (s : State) : Type 0 where
  pub once : distinct s.call_rcu_data_list ≡ true
  pub older : (i : ℕ) → has i s.call_rcu_data_list ≡ true → i < s.fresh
  pub default : (d : ℕ) → s.default_call_rcu_data ≡ some d → has d s.call_rcu_data_list ≡ true

pub count_all-absent :
    (h i : ℕ) (d : CallRcuData) (at : ℕ → CallRcuData) (l : List ℕ)
    → has i l ≡ false
    → count_all h (update at i d) l ≡ count_all h at l
count_all-absent h i d at [] a = refl
count_all-absent h i d at (j ∷ l) a = ground (arith, count_all-absent h i d at l)

-- A write to one of the structures counts once.
count_all-update :
    (h i : ℕ) (d : CallRcuData) (at : ℕ → CallRcuData) (l : List ℕ)
    → distinct l ≡ true
    → has i l ≡ true
    → count_all h (update at i d) l + count h (at i).cbs ≡ count_all h at l + count h d.cbs
count_all-update h i d at [] u m = ground arith
count_all-update h i d at (j ∷ l) u m = elim (Bool-cases (i == j)) [
  | inl same ↦ ground (arith, count_all-absent h i d at l)
  | inr other ↦ ground (arith, count_all-update h i d at l)
]

pub count_all-remove :
    (h i : ℕ) (at : ℕ → CallRcuData) (l : List ℕ)
    → count h (at i).cbs ≡ 0
    → count_all h at (remove i l) ≡ count_all h at l
unfolding remove
count_all-remove h i at [] z = refl
count_all-remove h i at (j ∷ l) z = elim (Bool-cases (i == j)) [
  | inl same ↦ ground (arith, count_all-remove h i at l)
  | inr other ↦ ground (arith, count_all-remove h i at l)
]

pub distinct-remove : (i : ℕ) (l : List ℕ) → distinct l ≡ true → distinct (remove i l) ≡ true
unfolding remove
distinct-remove i [] u = refl
distinct-remove i (j ∷ l) u = ground (arith, distinct-remove i l, has-remove_ne j i l)

-- Replacing the queue of one structure.
pub set_cbs-pending :
    (h i : ℕ) (cbs : List ℕ) (s : State)
    → WellFormed s
    → has i s.call_rcu_data_list ≡ true
    → pending h (set_cbs i cbs s) + count h (s.at i).cbs ≡ pending h s + count h cbs
unfolding set_cbs
set_cbs-pending h i cbs s w m = count_all-update h i _ s.at s.call_rcu_data_list w.once m

pub set_cbs-WellFormed :
    (i : ℕ) (cbs : List ℕ) (s : State) → WellFormed s → WellFormed (set_cbs i cbs s)
unfolding set_cbs
set_cbs-WellFormed i cbs s w = record { once = w.once; older = w.older; default = w.default }

pub create_call_rcu_data-WellFormed :
    (f : ℕ) (a : ℤ) (s : State) → WellFormed s → WellFormed (create_call_rcu_data f a s).1
unfolding create_call_rcu_data
create_call_rcu_data-WellFormed f a s w = record {
  once = ground (arith, w.once, w.older s.fresh);
  older = λ i m. ground (arith, w.older i);
  default = λ d e. ground (arith, w.default d e);
}

pub create_call_rcu_data-pending :
    (h f : ℕ) (a : ℤ) (s : State)
    → WellFormed s
    → pending h (create_call_rcu_data f a s).1 ≡ pending h s
unfolding create_call_rcu_data
create_call_rcu_data-pending h f a s w = ground (
  arith,
  count_all-absent h s.fresh (record { flags = f; cpu_affinity = a; cbs = [] }) s.at
      s.call_rcu_data_list,
  w.older s.fresh,
)
