-- ===== src/CdsList/Move.antt =====
-- Operations that join lists or move elements and heads between them: include/urcu/list.h.
use userspace_rcu.Prelude.{
  ℕ, ◌≡◌, true, false, List, [], ◌∷◌, ◌++◌, ◌==◌, has, arith, has-append, refl, if◌then◌else◌,
  append-nil, sym,
}
use userspace_rcu.CdsList.{
  Links, cds_list_add, cds_list_add_tail, cds_list_del, cds_list_del_init, cds_init_list_head,
  cds_list_move, cds_list_splice, cds_list_replace_init, unlink,
}
use userspace_rcu.Prelude.{distinct, distinct-delete, distinct-append}
use userspace_rcu.CdsList.Ring.{
  Chain, Ring, Chain-frame, Ring-frame, Ring-rotate, Ring-rotate_back, Chain-append, Chain-split,
  prev-end, Chain-end, first_to, has-first_to, next-start,
}
use userspace_rcu.Prelude.{has-last_from, last_from}
use userspace_rcu.CdsList.Update.{cds_list_add-Ring, cds_list_del-Ring, cds_list_add_tail-Ring}

-- `g` has the links of `h` but at the nodes `xs`.
abbrev pub SameOutside : (xs : List ℕ) (h g : Links) → Type 0
SameOutside xs h g = (c : ℕ) → has c xs ≡ false → (g.next c ≡ h.next c) × (g.prev c ≡ h.prev c)

pub cds_list_del-SameOutside :
    (h : Links) (head : ℕ) (xs : List ℕ) (elem : ℕ) (ys : List ℕ)
    → Ring h head (xs ++ elem ∷ ys)
    → SameOutside (head ∷ xs ++ ys) h (cds_list_del elem h)
unfolding cds_list_del unlink
cds_list_del-SameOutside h head xs elem ys (c, d) k o =
    let r = Chain-split h head xs elem ys head c in
    let p = prev-end h head xs elem r.0 in
    let n = next-start h elem ys head r.1 in
    let l = has-last_from head xs in
    let t = has-first_to ys head in let a = has-append k xs ys in (ground arith, ground arith)

pub cds_list_add-SameOutside :
    (h : Links) (newp head : ℕ) (xs : List ℕ)
    → Ring h head xs
    → has newp (head ∷ xs) ≡ false
    → SameOutside (newp ∷ head ∷ xs) h (cds_list_add newp head h)
unfolding cds_list_add
cds_list_add-SameOutside h newp head [] (c, d) f k o = (ground arith, ground arith)
cds_list_add-SameOutside h newp head (x ∷ xs) (c, d) f k o = (ground arith, ground arith)

-- A deleted element is an empty list of its own after cds_list_del_init, and the others stay in
-- order.
pub cds_list_del_init-Ring :
    (h : Links) (head : ℕ) (xs : List ℕ) (elem : ℕ) (ys : List ℕ)
    → Ring h head (xs ++ elem ∷ ys)
    → Ring (cds_list_del_init elem h) head (xs ++ ys) × Ring (cds_list_del_init elem h) elem []
unfolding cds_list_del_init cds_init_list_head
cds_list_del_init-Ring h head xs elem ys (c, d) =
    let k = distinct-delete (head ∷ xs) elem ys d in
    (
      Ring-frame (cds_list_del elem h) _ head (xs ++ ys)
          (cds_list_del-Ring h head xs elem ys (c, d)) (ground (arith, k)) (ground (arith, k)),
      (ground arith, refl),
    )

-- Moving an element within a list puts it first.
pub cds_list_move-within :
    (h : Links) (head : ℕ) (xs : List ℕ) (elem : ℕ) (ys : List ℕ)
    → Ring h head (xs ++ elem ∷ ys)
    → Ring (cds_list_move elem head h) head (elem ∷ xs ++ ys)
unfolding cds_list_move cds_list_del
cds_list_move-within h head xs elem ys (c, d) =
    cds_list_add-Ring (cds_list_del elem h) elem head (xs ++ ys)
      (cds_list_del-Ring h head xs elem ys (c, d)) (distinct-delete (head ∷ xs) elem ys d).1

-- Moving an element of one list to another takes it out of the first and puts it first on the other.
pub cds_list_move-across :
    (h : Links) (from to : ℕ) (xs : List ℕ) (elem : ℕ) (ys zs : List ℕ)
    → Ring h from (xs ++ elem ∷ ys)
    → Ring h to zs
    → ((c : ℕ) → has c (to ∷ zs) ≡ true → has c (from ∷ xs ++ elem ∷ ys) ≡ false)
    → Ring (cds_list_move elem to h) from (xs ++ ys) × Ring (cds_list_move elem to h) to (elem ∷ zs)
unfolding cds_list_move cds_list_del
cds_list_move-across h from to xs elem ys zs (c, d) r apart =
    let k = distinct-delete (from ∷ xs) elem ys d in
    let same = cds_list_del-SameOutside h from xs elem ys (c, d) in
    let out : (c : ℕ) → has c (to ∷ zs) ≡ true → has c (from ∷ xs ++ ys) ≡ false =
      (λ c i. ground (arith, apart c i, has-append c xs ys, has-append c xs (elem ∷ ys))) in
    let there : Ring (cds_list_del elem h) to zs =
      Ring-frame h _ to zs r (λ c i. (same c (out c i)).0) (λ c i. (same c (out c i)).1) in
    let e : has elem (to ∷ zs) ≡ false =
      ground (arith, apart elem, has-append elem xs (elem ∷ ys)) in
    let new = cds_list_add-SameOutside (cds_list_del elem h) elem to zs there e in
    (
      Ring-frame (cds_list_del elem h) _ from (xs ++ ys)
          (cds_list_del-Ring h from xs elem ys (c, d))
          (λ j i.
            (new j (ground (arith, k, apart j, has-append j xs ys, has-append j xs (elem ∷ ys)))).0)
          (λ j i.
            (new j
              (ground (arith, k, apart j, has-append j xs ys, has-append j xs (elem ∷ ys)))).1),
      cds_list_add-Ring (cds_list_del elem h) elem to zs there e,
    )

splice-empty : (h : Links) (add head : ℕ) → h.next add ≡ add → cds_list_splice add head h ≡ h
unfolding cds_list_splice
splice-empty h add head e = ground arith

-- the nodes that were spliced in, led on to the others
splice-tail :
    (h g : Links) (x : ℕ) (xs : List ℕ) (add head : ℕ) (ys : List ℕ)
    → Chain h x xs add
    → Chain h head ys head
    → distinct (x ∷ xs) ≡ true
    → distinct (head ∷ ys) ≡ true
    → ((c : ℕ)
        → has c (x ∷ xs) ≡ true
        → g.next c ≡ (if c == last_from x xs then first_to ys head else h.next c))
    → ((c : ℕ) → has c xs ≡ true → g.prev c ≡ h.prev c)
    → ((c : ℕ) → has c ys ≡ true → g.next c ≡ h.next c)
    → ((c : ℕ)
        → has c (head ∷ ys) ≡ true
        → g.prev c ≡ (if c == first_to ys head then last_from x xs else h.prev c))
    → Chain g x (xs ++ ys) head
splice-tail h g x xs add head [] c e d f n p m q =
    rw (append-nil xs) (Chain-end h g x xs add head c d n p (ground (arith, q head)))
splice-tail h g x xs add head (y ∷ ys) c (l, e) d f n p m q =
    Chain-append g x xs y ys head (Chain-end h g x xs add y c d n p (ground (arith, q y)))
      (Chain-frame h g y ys head e m (ground (arith, q)))

module _ (h : Links) (add head : ℕ) (full : (add == h.next add) ≡ false)
    (other : (head == h.prev add) ≡ false) (end : (add == h.prev add) ≡ false)
    (apart : (head == add) ≡ false) where
  next-splice :
      (c : ℕ)
      → (cds_list_splice add head h).next c
        ≡ (if c == head then h.next add else (if c == h.prev add then h.next head else h.next c))
  unfolding cds_list_splice
  next-splice c = ground arith

  prev-splice :
      (c : ℕ)
      → (h.next head == add) ≡ false
      → (cds_list_splice add head h).prev c
        ≡ (if c == h.next head then h.prev add else (if c == h.next add then head else h.prev c))
  unfolding cds_list_splice
  prev-splice c o = ground arith

-- Splicing puts the nodes of one list, in their order, before those of the other.
pub cds_list_splice-Ring :
    (h : Links) (add head : ℕ) (xs ys : List ℕ)
    → Ring h add xs
    → Ring h head ys
    → ((c : ℕ) → has c (add ∷ xs) ≡ true → has c (head ∷ ys) ≡ false)
    → Ring (cds_list_splice add head h) head (xs ++ ys)
cds_list_splice-Ring h add head [] ys (c, d) r apart = rw (splice-empty h add head c.0) r
cds_list_splice-Ring h add head (x ∷ xs) ys (c, d) (e, f) apart =
    let p = prev-end h add (x ∷ xs) add c in
    let n = next-start h head ys head e in
    let l = has-last_from x xs in
    let t = has-first_to ys head in
    let u = apart add (ground arith) in
    let v = apart (last_from x xs) (ground arith) in
    let full : (add == h.next add) ≡ false = ground arith in
    let other : (head == h.prev add) ≡ false = ground arith in
    let end : (add == h.prev add) ≡ false = ground arith in
    let next = next-splice h add head full other end (ground arith) in
    let inner = prev-splice h add head full other end (ground arith) in
    let o : (h.next head == add) ≡ false = ground arith in
    (
      (
        (ground (arith, next head), ground (arith, inner x, apart x)),
        splice-tail h _ x xs add head ys c.1 e (ground arith) f
            (λ k i. ground (arith, next k, p, n, apart k))
            (λ k i. ground (arith, inner k, apart k, n)) (λ k i. ground (arith, next k, apart k, p))
            (λ k i. ground (arith, inner k, apart k, p, n)),
      ),
      ground (
        arith,
        distinct-append (x ∷ xs) ys (ground arith) (ground arith) (λ k i. ground (arith, apart k)),
        apart head,
        has-append head (x ∷ xs) ys,
      ),
    )

-- Replacing the head of a list that is not empty gives all its nodes to the new head, and leaves
-- the old one an empty list.
pub cds_list_replace_init-Ring :
    (h : Links) (old new x : ℕ) (xs : List ℕ)
    → Ring h old (x ∷ xs)
    → has new (old ∷ x ∷ xs) ≡ false
    → Ring (cds_list_replace_init old new h) new (x ∷ xs)
      × Ring (cds_list_replace_init old new h) old []
unfolding cds_list_replace_init cds_init_list_head
cds_list_replace_init-Ring h old new x xs (c, d) f =
    let r = Ring-rotate h old x xs (c, d) in
    let k = cds_list_del-Ring h x xs old [] r in
    let g = cds_list_del old h in
    let a = cds_list_add_tail-Ring g new x xs (rw (sym (append-nil xs)) k) (ground arith) in
    let b = Ring-rotate_back (cds_list_add_tail new x g) new x xs a in
    (
      Ring-frame (cds_list_add_tail new x g) _ new (x ∷ xs) b (ground arith) (ground arith),
      (ground arith, refl),
    )
