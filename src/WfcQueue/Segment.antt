-- ===== src/WfcQueue/Segment.antt =====
-- The nodes from one to the tail, some of whose links are still to be stored.
use userspace_rcu.Prelude.{
  ℕ, ◌≡◌, ◌≢◌, ◌⊎◌, true, false, refl, List, [], ◌∷◌, ◌++◌, arith, ◌==◌, has, has-append,
  if◌then◌else◌,
}
use userspace_rcu.Prelude.{distinct}
use userspace_rcu.Prelude.{last_from, has-last_from}
use userspace_rcu.WfcQueue.{null}

-- the link from `a` to `b` is there, or is to be stored
abbrev pub Link : (next appending : ℕ → ℕ) (a b : ℕ) → Type 0
Link next appending a b =
    ((next a ≡ b) × (appending a ≡ null)) ⊎ ((next a ≡ null) × (appending a ≡ b))

-- after `a` come the nodes `xs`, and nothing comes after the last
abbrev pub Segment : (next appending : ℕ → ℕ) (a : ℕ) (xs : List ℕ) → Type 0
Segment n p a [] = (n a ≡ null) × (p a ≡ null)
Segment n p a (x ∷ xs) = Link n p a x × (x ≢ null) × Segment n p x xs

pub Segment-frame :
    (n p m q : ℕ → ℕ) (a : ℕ) (xs : List ℕ)
    → Segment n p a xs
    → ((c : ℕ) → has c (a ∷ xs) ≡ true → (m c ≡ n c) × (q c ≡ p c))
    → Segment m q a xs
Segment-frame n p m q a [] s f = ground (arith, f a)
Segment-frame n p m q a (x ∷ xs) (l, z, s) f =
    (ground (arith, f a), z, Segment-frame n p m q x xs s (λ c i. f c (ground arith)))

-- a segment whose last node gets another segment appended, before the link is stored
pub Segment-append :
    (n p q : ℕ → ℕ) (a : ℕ) (xs : List ℕ) (y : ℕ) (ys : List ℕ)
    → Segment n p a xs
    → Segment n p y ys
    → y ≢ null
    → distinct (a ∷ xs ++ y ∷ ys) ≡ true
    → ((c : ℕ) → q c ≡ (if c == last_from a xs then y else p c))
    → Segment n q a (xs ++ y ∷ ys)
Segment-append n p q a [] y ys s t z d e =
    (ground (arith, e a), z, Segment-frame n p n q y ys t (λ c i. (refl, ground (arith, e c))))
Segment-append n p q a (x ∷ xs) y ys (l, z, s) t w d e = (
  ground (arith, e a, has-last_from x xs, has-append a xs (y ∷ ys)),
  z,
  Segment-append n p q x xs y ys s t w (ground arith) e,
)

-- the link from one node of a segment is stored
pub Segment-store :
    (n p m q : ℕ → ℕ) (a : ℕ) (xs : List ℕ) (k : ℕ)
    → Segment n p a xs
    → (p k == null) ≡ false
    → ((c : ℕ) → m c ≡ (if c == k then p k else n c))
    → ((c : ℕ) → q c ≡ (if c == k then null else p c))
    → Segment m q a xs
Segment-store n p m q a [] k s z e f = ground (arith, e a, f a)
Segment-store n p m q a (x ∷ xs) k (l, y, s) z e f =
    (ground (arith, e a, f a), y, Segment-store n p m q x xs k s z e f)
