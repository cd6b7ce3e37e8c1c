-- ===== src/CdsList/Readers.antt =====
-- What a reader that walks the list sees while another thread changes it: include/urcu/rculist.h.
use userspace_rcu.Prelude.{
  ℕ, suc, ◌<◌, ◌≡◌, refl, List, [], ◌∷◌, ◌++◌, arith, true, false, has, has-append, length, ◌⊎◌,
  inl, inr, length-append,
}
use userspace_rcu.CdsList.{Links, cds_list_for_each}
use userspace_rcu.Prelude.{distinct, distinct-apart}
use userspace_rcu.CdsList.Ring.{Chain, Ring, Chain-split, prev-end}
use userspace_rcu.Prelude.{has-last_from, last_from}
use userspace_rcu.CdsList.Forward.{Forward-Chain, Forward-frame, for_each-Forward}
use userspace_rcu.CdsList.RcuUpdate.{
  cds_list_add_rcu-Ring, cds_list_add_tail_rcu-Ring, cds_list_del_rcu-Ring,
  cds_list_replace_rcu-Ring,
}
use userspace_rcu.CdsList.Rcu.{
  Store, run, cds_list_add_rcu, cds_list_add_tail_rcu, cds_list_replace_rcu, cds_list_del_rcu,
}

-- the loop of a reader that starts in the state `g`
abbrev pub walk : (fuel head : ℕ) → Links → List ℕ
walk fuel head g = cds_list_for_each fuel (g.next head) head g

-- before, between and after the stores
abbrev pub Throughout : (Links → Type 0) → List Store → Links → Type 0
Throughout p [] h = p h
Throughout p (s ∷ ss) h = p h × Throughout p ss (s h)

module _ (h : Links) (head : ℕ) (xs : List ℕ) (fuel : ℕ) (c : Chain h head xs head)
    (d : distinct (head ∷ xs) ≡ true) (l : length xs < fuel) where
  -- stores to other nodes change nothing for readers
  walk-same :
      (g : Links)
      → ((k : ℕ) → has k (head ∷ xs) ≡ true → g.next k ≡ h.next k)
      → walk fuel head g ≡ xs
  walk-same g n =
      for_each-Forward g fuel head xs head
        (Forward-frame h g head xs head (Forward-Chain h head xs head c) n) (ground arith) l

module _ (h : Links) (head : ℕ) (xs : List ℕ) (elem : ℕ) (ys : List ℕ) (fuel : ℕ)
    (c : Chain h head (xs ++ elem ∷ ys) head) (d : distinct (head ∷ xs ++ elem ∷ ys) ≡ true)
    (l : length (xs ++ elem ∷ ys) < fuel) where
  -- so for a reader that stands at an element
  rest-same :
      (g : Links)
      → ((k : ℕ) → has k (elem ∷ ys) ≡ true → g.next k ≡ h.next k)
      → cds_list_for_each fuel (g.next elem) head g ≡ ys
  rest-same g n =
      for_each-Forward g fuel elem ys head
        (Forward-frame h g elem ys head
          (Forward-Chain h elem ys head (Chain-split h head xs elem ys head c).1) n)
        (ground (arith, distinct-apart (head ∷ xs) (elem ∷ ys) head d))
        (ground (arith, length-append xs (elem ∷ ys)))

-- Before, between and after the stores of cds_list_add_rcu a reader's loop over the list ends,
-- having visited the old nodes in order, with or without the new one before them; at the end the new
-- one is on the list, before the old ones.
pub cds_list_add_rcu-readers :
    (h : Links) (newp head : ℕ) (xs : List ℕ) (fuel : ℕ)
    → Ring h head xs
    → has newp (head ∷ xs) ≡ false
    → suc (length xs) < fuel
    → Throughout
        (λ g. (walk fuel head g ≡ xs) ⊎ (walk fuel head g ≡ newp ∷ xs))
        (cds_list_add_rcu newp head)
        h
      × Ring (run (cds_list_add_rcu newp head) h) head (newp ∷ xs)
unfolding cds_list_add_rcu
cds_list_add_rcu-readers h newp head xs fuel (c, d) f l =
    let old = walk-same h head xs fuel c d (ground arith) in
    let r = cds_list_add_rcu-Ring h newp head xs (c, d) f in
    let new = walk-same (run (cds_list_add_rcu newp head) h) head (newp ∷ xs) fuel r.0 r.1 l in
    (
      (
        inl (old h (ground arith)),
        (
          inl (old _ (ground arith)),
          (inl (old _ (ground arith)), (inl (old _ (ground arith)), inr (new _ (λ k i. refl)))),
        ),
      ),
      r,
    )

-- Before, between and after the stores of cds_list_add_tail_rcu a reader's loop over the list ends,
-- having visited the old nodes in order, with or without the new one after them; at the end the new
-- one is on the list, after the old ones.
pub cds_list_add_tail_rcu-readers :
    (h : Links) (newp head : ℕ) (xs : List ℕ) (fuel : ℕ)
    → Ring h head xs
    → has newp (head ∷ xs) ≡ false
    → suc (length xs) < fuel
    → Throughout
        (λ g. (walk fuel head g ≡ xs) ⊎ (walk fuel head g ≡ xs ++ newp ∷ []))
        (cds_list_add_tail_rcu newp head)
        h
      × Ring (run (cds_list_add_tail_rcu newp head) h) head (xs ++ newp ∷ [])
unfolding cds_list_add_tail_rcu
cds_list_add_tail_rcu-readers h newp head xs fuel (c, d) f l =
    let old = walk-same h head xs fuel c d (ground arith) in
    let r = cds_list_add_tail_rcu-Ring h newp head xs (c, d) f in
    let new =
      walk-same (run (cds_list_add_tail_rcu newp head) h) head (xs ++ newp ∷ []) fuel r.0 r.1
        (ground (arith, length-append xs (newp ∷ []))) in
    (
      (
        inl (old h (ground arith)),
        (
          inl (old _ (ground arith)),
          (inl (old _ (ground arith)), (inr (new _ (λ k i. refl)), inr (new _ (λ k i. refl)))),
        ),
      ),
      r,
    )

-- Before, between and after the two stores of cds_list_del_rcu a reader's loop over the list ends,
-- having visited all other nodes in order and at most the deleted one besides; and a reader that
-- stands at the deleted one goes on to the nodes that followed it. At the end it is off the list.
pub cds_list_del_rcu-readers :
    (h : Links) (head : ℕ) (xs : List ℕ) (elem : ℕ) (ys : List ℕ) (fuel : ℕ)
    → Ring h head (xs ++ elem ∷ ys)
    → length (xs ++ elem ∷ ys) < fuel
    → Throughout
        (λ g.
          ((walk fuel head g ≡ xs ++ elem ∷ ys) ⊎ (walk fuel head g ≡ xs ++ ys))
          × (cds_list_for_each fuel (g.next elem) head g ≡ ys))
        (cds_list_del_rcu elem)
        h
      × Ring (run (cds_list_del_rcu elem) h) head (xs ++ ys)
unfolding cds_list_del_rcu
cds_list_del_rcu-readers h head xs elem ys fuel (c, d) l =
    let old = walk-same h head (xs ++ elem ∷ ys) fuel c d l in
    let r = cds_list_del_rcu-Ring h head xs elem ys (c, d) in
    let new =
      walk-same (run (cds_list_del_rcu elem) h) head (xs ++ ys) fuel r.0 r.1
        (ground (arith, length-append xs ys, length-append xs (elem ∷ ys))) in
    let p = prev-end h head xs elem (Chain-split h head xs elem ys head c).0 in
    let q = distinct-apart (head ∷ xs) (elem ∷ ys) (last_from head xs) d (has-last_from head xs) in
    let rest = rest-same h head xs elem ys fuel c d l in
    (
      (
        (inl (old h (λ k i. refl)), rest h (λ k i. refl)),
        (
          (inl (old _ (λ k i. refl)), rest _ (λ k i. refl)),
          (inr (new _ (λ k i. refl)), rest _ (λ k i. ground (arith, p, q))),
        ),
      ),
      r,
    )

-- Before, between and after the stores of cds_list_replace_rcu a reader's loop over the list ends,
-- having visited either the old element or the new one in its place; and a reader that stands at the
-- old one goes on to the nodes that follow. At the end the new one has its place on the list.
pub cds_list_replace_rcu-readers :
    (h : Links) (head : ℕ) (xs : List ℕ) (old : ℕ) (ys : List ℕ) (new fuel : ℕ)
    → Ring h head (xs ++ old ∷ ys)
    → has new (head ∷ xs ++ old ∷ ys) ≡ false
    → length (xs ++ old ∷ ys) < fuel
    → Throughout
        (λ g.
          ((walk fuel head g ≡ xs ++ old ∷ ys) ⊎ (walk fuel head g ≡ xs ++ new ∷ ys))
          × (cds_list_for_each fuel (g.next old) head g ≡ ys))
        (cds_list_replace_rcu old new)
        h
      × Ring (run (cds_list_replace_rcu old new) h) head (xs ++ new ∷ ys)
unfolding cds_list_replace_rcu
cds_list_replace_rcu-readers h head xs old ys new fuel (c, d) f l =
    let old_walk = walk-same h head (xs ++ old ∷ ys) fuel c d l in
    let r = cds_list_replace_rcu-Ring h head xs old ys new (c, d) f in
    let new_walk =
      walk-same (run (cds_list_replace_rcu old new) h) head (xs ++ new ∷ ys) fuel r.0 r.1
        (ground (arith, length-append xs (new ∷ ys), length-append xs (old ∷ ys))) in
    let p = prev-end h head xs old (Chain-split h head xs old ys head c).0 in
    let q = distinct-apart (head ∷ xs) (old ∷ ys) (last_from head xs) d (has-last_from head xs) in
    let o = has-append new (head ∷ xs) (old ∷ ys) in
    let rest = rest-same h head xs old ys fuel c d l in
    (
      (
        (inl (old_walk h (λ k i. refl)), rest h (λ k i. refl)),
        (
          (inl (old_walk _ (λ k i. ground arith)), rest _ (λ k i. ground (arith, p, q, o))),
          (
            (inl (old_walk _ (λ k i. ground arith)), rest _ (λ k i. ground (arith, p, q, o))),
            (
              (inr (new_walk _ (λ k i. refl)), rest _ (λ k i. ground (arith, p, q, o))),
              (inr (new_walk _ (λ k i. refl)), rest _ (λ k i. ground (arith, p, q, o))),
            ),
          ),
        ),
      ),
      r,
    )
