-- ===== src/CdsList/RcuUpdate.antt =====
-- What the functions of include/urcu/rculist.h leave behind: the lists that those of
-- include/urcu/list.h leave.
use userspace_rcu.Prelude.{ℕ, ◌≡◌, refl, List, [], ◌∷◌, ◌++◌, arith, false, has, update}
use userspace_rcu.CdsList.{Links, cds_list_add_tail, cds_list_del, unlink, cds_list_replace}
use userspace_rcu.CdsList.Ring.{Ring, Ring-frame, Chain-frame, prev-end}
use userspace_rcu.Prelude.{has-last_from}
use userspace_rcu.CdsList.Update.{cds_list_add_tail-Ring, cds_list_del-Ring, cds_list_replace-Ring}
use userspace_rcu.CdsList.Rcu.{
  run, cds_list_add_rcu, cds_list_add_tail_rcu, cds_list_replace_rcu, cds_list_del_rcu,
}

prev-kept : (h : Links) (elem : ℕ) → update h.prev (h.next elem) (h.prev elem) elem ≡ h.prev elem
prev-kept h elem = ground arith

run-del_rcu : (h : Links) (elem : ℕ) → run (cds_list_del_rcu elem) h ≡ cds_list_del elem h
unfolding cds_list_del_rcu cds_list_del unlink
run-del_rcu h elem = rw (prev-kept h elem) refl

run-replace_rcu :
    (h : Links) (old new : ℕ) → run (cds_list_replace_rcu old new) h ≡ cds_list_replace old new h
unfolding cds_list_replace_rcu cds_list_replace
run-replace_rcu h old new = refl

-- cds_list_del_rcu takes an element out of its place.
pub cds_list_del_rcu-Ring :
    (h : Links) (head : ℕ) (xs : List ℕ) (elem : ℕ) (ys : List ℕ)
    → Ring h head (xs ++ elem ∷ ys)
    → Ring (run (cds_list_del_rcu elem) h) head (xs ++ ys)
cds_list_del_rcu-Ring h head xs elem ys r =
    rw (run-del_rcu h elem) (cds_list_del-Ring h head xs elem ys r)

-- cds_list_replace_rcu gives the place of an element to the new one.
pub cds_list_replace_rcu-Ring :
    (h : Links) (head : ℕ) (xs : List ℕ) (old : ℕ) (ys : List ℕ) (new : ℕ)
    → Ring h head (xs ++ old ∷ ys)
    → has new (head ∷ xs ++ old ∷ ys) ≡ false
    → Ring (run (cds_list_replace_rcu old new) h) head (xs ++ new ∷ ys)
cds_list_replace_rcu-Ring h head xs old ys new r f =
    rw (run-replace_rcu h old new) (cds_list_replace-Ring h head xs old ys new r f)

-- cds_list_add_rcu puts a new node first.
pub cds_list_add_rcu-Ring :
    (h : Links) (newp head : ℕ) (xs : List ℕ)
    → Ring h head xs
    → has newp (head ∷ xs) ≡ false
    → Ring (run (cds_list_add_rcu newp head) h) head (newp ∷ xs)
unfolding cds_list_add_rcu
cds_list_add_rcu-Ring h newp head [] ((n, p), d) f = (ground arith, ground arith)
cds_list_add_rcu-Ring h newp head (x ∷ xs) ((l, c), d) f = (
  (ground arith, (ground arith, Chain-frame h _ x xs head c (ground arith) (ground arith))),
  ground arith,
)

-- cds_list_add_tail_rcu puts a new node last.
pub cds_list_add_tail_rcu-Ring :
    (h : Links) (newp head : ℕ) (xs : List ℕ)
    → Ring h head xs
    → has newp (head ∷ xs) ≡ false
    → Ring (run (cds_list_add_tail_rcu newp head) h) head (xs ++ newp ∷ [])
unfolding cds_list_add_tail_rcu cds_list_add_tail
cds_list_add_tail_rcu-Ring h newp head xs (c, d) f =
    let p = prev-end h head xs head c in
    let l = has-last_from head xs in
    Ring-frame (cds_list_add_tail newp head h) _ head (xs ++ newp ∷ [])
      (cds_list_add_tail-Ring h newp head xs (c, d) f) (λ k i. ground (arith, p, l))
      (λ k i. ground (arith, p, l))
