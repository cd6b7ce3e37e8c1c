-- ===== src/CdsList/Update.antt =====
-- What adding, deleting and replacing an element do to a list: include/urcu/list.h.
use userspace_rcu.Prelude.{
  ℕ, ◌≡◌, false, List, [], ◌∷◌, ◌++◌, ◌==◌, has, arith, has-append, if◌then◌else◌, append-nil, sym,
  ◌∙◌,
}
use userspace_rcu.CdsList.{
  Links, cds_list_add, cds_list_add_tail, cds_list_del, unlink, cds_list_replace,
}
use userspace_rcu.Prelude.{
  distinct-insert, distinct-delete, distinct-left, distinct-right, distinct-apart,
}
use userspace_rcu.CdsList.Ring.{
  Ring, Chain-frame, Chain-append, Chain-split, prev-end, Chain-end, Chain-start, has-first_to,
  next-start, first_to-not_has,
}
use userspace_rcu.Prelude.{has-last_from, last_from}

pub cds_list_add-Ring :
    (h : Links) (newp head : ℕ) (xs : List ℕ)
    → Ring h head xs
    → has newp (head ∷ xs) ≡ false
    → Ring (cds_list_add newp head h) head (newp ∷ xs)
unfolding cds_list_add
cds_list_add-Ring h newp head [] ((n, p), d) f = (ground (arith), ground arith)
cds_list_add-Ring h newp head (x ∷ xs) ((l, c), d) f = (
  (ground arith, (ground arith, Chain-frame h _ x xs head c (ground arith) (ground arith))),
  ground arith,
)

pub cds_list_add_tail-Ring :
    (h : Links) (newp head : ℕ) (xs : List ℕ)
    → Ring h head xs
    → has newp (head ∷ xs) ≡ false
    → Ring (cds_list_add_tail newp head h) head (xs ++ newp ∷ [])
unfolding cds_list_add_tail
cds_list_add_tail-Ring h newp head xs (c, d) f = (
  Chain-append _ head xs newp [] head
      (Chain-end h _ head xs head newp c d
        (ground (arith, prev-end h head xs head c, has-last_from head xs))
        (ground (arith, has-last_from head xs))
        (ground (arith, prev-end h head xs head c, has-last_from head xs)))
      (ground (arith, prev-end h head xs head c, has-last_from head xs)),
  distinct-insert (head ∷ xs) newp [] (rw (append-nil xs) d) (rw (append-nil xs) f),
)

-- A node that is not on the list is first on it after cds_list_add, and last after
-- cds_list_add_tail; the others keep their order.
pub cds_list_add-ends :
    (h : Links) (newp head : ℕ) (xs : List ℕ)
    → Ring h head xs
    → has newp (head ∷ xs) ≡ false
    → Ring (cds_list_add newp head h) head (newp ∷ xs)
      × Ring (cds_list_add_tail newp head h) head (xs ++ newp ∷ [])
cds_list_add-ends h newp head xs r f =
    (cds_list_add-Ring h newp head xs r f, cds_list_add_tail-Ring h newp head xs r f)

-- Deleting an element takes it out of its place.
pub cds_list_del-Ring :
    (h : Links) (head : ℕ) (xs : List ℕ) (elem : ℕ) (ys : List ℕ)
    → Ring h head (xs ++ elem ∷ ys)
    → Ring (cds_list_del elem h) head (xs ++ ys)
unfolding cds_list_del unlink
cds_list_del-Ring h head xs elem [] (c, d) =
    let r = Chain-split h head xs elem [] head c in
    let k = distinct-delete (head ∷ xs) elem [] d in
    (
      rw (append-nil xs) (
          Chain-end h _ head xs elem head r.0 (distinct-left (head ∷ xs) (elem ∷ []) d)
            (ground (arith, prev-end h head xs elem r.0, r.1))
            (ground
              (arith, prev-end h head xs elem r.0, r.1, distinct-left (head ∷ xs) (elem ∷ []) d))
            (ground (arith, prev-end h head xs elem r.0, r.1))),
      k.0,
    )
cds_list_del-Ring h head xs elem (y ∷ ys) (c, d) =
    let r = Chain-split h head xs elem (y ∷ ys) head c in
    let k = distinct-delete (head ∷ xs) elem (y ∷ ys) d in
    (
      Chain-append _ head xs y ys head
          (Chain-end h _ head xs elem y r.0 (distinct-left (head ∷ xs) (elem ∷ y ∷ ys) d)
            (ground (arith, prev-end h head xs elem r.0, r.1, k))
            (ground
              (arith, prev-end h head xs elem r.0, r.1, distinct-apart (head ∷ xs) (elem ∷ y ∷ ys)))
            (ground (arith, prev-end h head xs elem r.0, r.1)))
          (Chain-frame h _ y ys head r.1.1
            (ground (
              arith,
              prev-end h head xs elem r.0,
              r.1,
              has-last_from head xs,
              distinct-apart (head ∷ xs) (elem ∷ y ∷ ys),
            ))
            (ground (
              arith,
              prev-end h head xs elem r.0,
              r.1,
              distinct-right (head ∷ xs) (elem ∷ y ∷ ys) d,
              distinct-apart (head ∷ xs) (elem ∷ y ∷ ys) head d (ground arith),
            ))),
      k.0,
    )

next-replace :
    (h : Links) (old new c : ℕ)
    → (h.prev old == new) ≡ false
    → (h.next old == new) ≡ false
    → (cds_list_replace old new h).next c
      ≡ (if c == h.prev old then new else (if c == new then h.next old else h.next c))
unfolding cds_list_replace
next-replace h old new c e i = ground arith

prev-replace :
    (h : Links) (old new c : ℕ)
    → (h.prev old == new) ≡ false
    → (h.next old == new) ≡ false
    → (old == new) ≡ false
    → (cds_list_replace old new h).prev c
      ≡ (if c == h.next old then new else (if c == new then h.prev old else h.prev c))
unfolding cds_list_replace
prev-replace h old new c e i o = ground arith

-- An element that is replaced gives its place to the new one.
pub cds_list_replace-Ring :
    (h : Links) (head : ℕ) (xs : List ℕ) (old : ℕ) (ys : List ℕ) (new : ℕ)
    → Ring h head (xs ++ old ∷ ys)
    → has new (head ∷ xs ++ old ∷ ys) ≡ false
    → Ring (cds_list_replace old new h) head (xs ++ new ∷ ys)
cds_list_replace-Ring h head xs old ys new (c, d) f =
    let r = Chain-split h head xs old ys head c in
    let k = distinct-delete (head ∷ xs) old ys d in
    let f1 = sym (has-append new (head ∷ xs) (old ∷ ys)) ∙ f in
    let p = prev-end h head xs old r.0 in
    let l = has-last_from head xs in
    let n = next-start h old ys head r.1 in
    let t = has-first_to ys head in
    let i : (h.prev old == new) ≡ false = ground (arith, p, l, f1) in
    let j : (h.next old == new) ≡ false = ground (arith, n, t, f1) in
    let next = next-replace h old new in
    let prev = prev-replace h old new in
    let v = first_to-not_has head xs old ys d in
    (
      Chain-append _ head xs new ys head
          (Chain-end h _ head xs old new r.0 (distinct-left (head ∷ xs) (old ∷ ys) d)
            (λ c i. ground (arith, next c, f1, p)) (λ c i. ground (arith, prev c, f1, v, n)) ground
            (arith, prev new, f1, p, n))
          (Chain-start h _ old ys head new r.1
            (ground (
              arith,
              distinct-right (head ∷ xs) (old ∷ ys) d,
              distinct-apart (head ∷ xs) (old ∷ ys) head d,
            ))
            ground (arith, next new, p, n)
            (λ c i. ground (
              arith,
              next c,
              f1,
              p,
              l,
              distinct-apart (head ∷ xs) (old ∷ ys) (last_from head xs) d,
            ))
            (λ c i. ground (arith, prev c, f1, n))),
      distinct-insert (head ∷ xs) new ys k.0 (ground (arith, f1, has-append new (head ∷ xs) ys)),
    )
