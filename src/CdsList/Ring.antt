-- ===== src/CdsList/Ring.antt =====
-- What the links of a list say: its nodes in order, in a ring through its head.
use userspace_rcu.Prelude.{
  ℕ, ◌≡◌, true, false, List, [], ◌∷◌, ◌++◌, ◌==◌, if◌then◌else◌, has, arith, has-append, append-nil,
  ap, ◌∙◌,
}
use userspace_rcu.CdsList.{Links}
use userspace_rcu.Prelude.{last_from, has-last_from}
use userspace_rcu.Prelude.{distinct, distinct-apart, distinct-insert, distinct-delete}

-- `next` leads from `a` to `b` and `prev` back
abbrev pub Linked : Links → (a b : ℕ) → Type 0
Linked h a b = (h.next a ≡ b) × (h.prev b ≡ a)

-- from `a` through the nodes `xs` to `b`, and back
abbrev pub Chain : Links → (a : ℕ) (xs : List ℕ) (b : ℕ) → Type 0
Chain h a [] b = Linked h a b
Chain h a (x ∷ xs) b = Linked h a x × Chain h x xs b

-- the list with the head `head` and the nodes `xs`
abbrev pub Ring : Links → (head : ℕ) (xs : List ℕ) → Type 0
Ring h head xs = Chain h head xs head × (distinct (head ∷ xs) ≡ true)

pub Chain-frame :
    (h g : Links) (a : ℕ) (xs : List ℕ) (b : ℕ)
    → Chain h a xs b
    → ((c : ℕ) → has c (a ∷ xs) ≡ true → g.next c ≡ h.next c)
    → ((c : ℕ) → has c (b ∷ xs) ≡ true → g.prev c ≡ h.prev c)
    → Chain g a xs b
Chain-frame h g a [] b c n p = ground (arith, n a, p b)
Chain-frame h g a (x ∷ xs) b (l, c) n p = (
  ground (arith, n a, p x),
  Chain-frame h g x xs b c (λ d i. n d (ground arith)) (λ d i. p d (ground arith)),
)

pub Chain-append :
    (h : Links) (a : ℕ) (xs : List ℕ) (e : ℕ) (ys : List ℕ) (b : ℕ)
    → Chain h a xs e
    → Chain h e ys b
    → Chain h a (xs ++ e ∷ ys) b
Chain-append h a [] e ys b c d = (c, d)
Chain-append h a (x ∷ xs) e ys b (l, c) d = (l, Chain-append h x xs e ys b c d)

pub Chain-split :
    (h : Links) (a : ℕ) (xs : List ℕ) (e : ℕ) (ys : List ℕ) (b : ℕ)
    → Chain h a (xs ++ e ∷ ys) b
    → Chain h a xs e × Chain h e ys b
Chain-split h a [] e ys b c = c
Chain-split h a (x ∷ xs) e ys b (l, c) = let r = Chain-split h x xs e ys b c in ((l, r.0), r.1)

-- a list keeps its links if only other nodes change
pub Ring-frame :
    (h g : Links) (head : ℕ) (xs : List ℕ)
    → Ring h head xs
    → ((c : ℕ) → has c (head ∷ xs) ≡ true → g.next c ≡ h.next c)
    → ((c : ℕ) → has c (head ∷ xs) ≡ true → g.prev c ≡ h.prev c)
    → Ring g head xs
Ring-frame h g head xs (c, d) n p = (Chain-frame h g head xs head c n p, d)

pub prev-end :
    (h : Links) (a : ℕ) (xs : List ℕ) (b : ℕ) → Chain h a xs b → h.prev b ≡ last_from a xs
prev-end h a [] b c = c.1
prev-end h a (x ∷ xs) b c = prev-end h x xs b c.1

-- a chain led to another end
pub Chain-end :
    (h g : Links) (a : ℕ) (xs : List ℕ) (b n : ℕ)
    → Chain h a xs b
    → distinct (a ∷ xs) ≡ true
    → ((c : ℕ) → has c (a ∷ xs) ≡ true → g.next c ≡ (if c == last_from a xs then n else h.next c))
    → ((c : ℕ) → has c xs ≡ true → g.prev c ≡ h.prev c)
    → g.prev n ≡ last_from a xs
    → Chain g a xs n
Chain-end h g a [] b n c d e p q = (ground (arith, e a), q)
Chain-end h g a (x ∷ xs) b n (l, c) d e p q = (
  ground (arith, e a, p x, has-last_from x xs),
  Chain-end h g x xs b n c (ground arith) (λ k i. e k (ground arith)) (λ k i. p k (ground arith)) q,
)

-- the node after the start of a chain
abbrev pub first_to : (xs : List ℕ) (b : ℕ) → ℕ
first_to [] b = b
first_to (x ∷ xs) b = x

pub has-first_to : (xs : List ℕ) (b : ℕ) → has (first_to xs b) (b ∷ xs) ≡ true
has-first_to [] b = ground arith
has-first_to (x ∷ xs) b = ground arith

pub next-start :
    (h : Links) (a : ℕ) (xs : List ℕ) (b : ℕ) → Chain h a xs b → h.next a ≡ first_to xs b
next-start h a [] b c = c.0
next-start h a (x ∷ xs) b c = c.0.0

-- a chain led from another start
pub Chain-start :
    (h g : Links) (a : ℕ) (xs : List ℕ) (b m : ℕ)
    → Chain h a xs b
    → distinct (b ∷ xs) ≡ true
    → g.next m ≡ first_to xs b
    → ((c : ℕ) → has c xs ≡ true → g.next c ≡ h.next c)
    → ((c : ℕ) → has c (b ∷ xs) ≡ true → g.prev c ≡ (if c == first_to xs b then m else h.prev c))
    → Chain g m xs b
Chain-start h g a [] b m c d e n p = (e, ground (arith, p b))
Chain-start h g a (x ∷ xs) b m (l, c) d e n p =
    ((e, ground (arith, p x)), Chain-frame h g x xs b c n (ground (arith, p)))

pub first_to-not_has :
    (head : ℕ) (xs : List ℕ) (old : ℕ) (ys : List ℕ)
    → distinct (head ∷ xs ++ old ∷ ys) ≡ true
    → has (first_to ys head) xs ≡ false
first_to-not_has head xs old [] d = ground (arith, has-append head xs (old ∷ []))
first_to-not_has head xs old (y ∷ ys) d =
    ground (arith, distinct-apart (head ∷ xs) (old ∷ y ∷ ys) y d)

-- the same ring, seen from its first node
pub Ring-rotate : (h : Links) (a x : ℕ) (xs : List ℕ) → Ring h a (x ∷ xs) → Ring h x (xs ++ a ∷ [])
Ring-rotate h a x xs ((l, c), d) = (
  Chain-append h x xs a [] x c l,
  distinct-insert (x ∷ xs) a [] (ap (λ l. distinct (x ∷ l)) (append-nil xs) ∙ ground arith)
      (ap (λ l. has a (x ∷ l)) (append-nil xs) ∙ ground arith),
)

pub Ring-rotate_back :
    (h : Links) (a x : ℕ) (xs : List ℕ) → Ring h x (xs ++ a ∷ []) → Ring h a (x ∷ xs)
Ring-rotate_back h a x xs (c, d) =
    let r = Chain-split h x xs a [] x c in
    let k = distinct-delete (x ∷ xs) a [] d in ((r.1, r.0), ground (arith, k, append-nil xs))
