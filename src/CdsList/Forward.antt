-- ===== src/CdsList/Forward.antt =====
-- The links of a list that a reader follows: `next` only.
use userspace_rcu.Prelude.{
  ℕ, zero, suc, ◌<◌, ◌≡◌, List, [], ◌∷◌, ◌++◌, arith, true, false, ◌==◌, if◌then◌else◌, has, length,
}
use userspace_rcu.CdsList.{Links, cds_list_for_each}
use userspace_rcu.Prelude.{distinct}
use userspace_rcu.CdsList.Ring.{Chain}
use userspace_rcu.Prelude.{has-last_from, last_from}

-- `next` leads from `a` through the nodes `xs` to `b`
abbrev pub Forward : Links → (a : ℕ) (xs : List ℕ) (b : ℕ) → Type 0
Forward h a [] b = h.next a ≡ b
Forward h a (x ∷ xs) b = (h.next a ≡ x) × Forward h x xs b

pub Forward-Chain : (h : Links) (a : ℕ) (xs : List ℕ) (b : ℕ) → Chain h a xs b → Forward h a xs b
Forward-Chain h a [] b c = c.0
Forward-Chain h a (x ∷ xs) b c = (c.0.0, Forward-Chain h x xs b c.1)

pub Forward-frame :
    (h g : Links) (a : ℕ) (xs : List ℕ) (b : ℕ)
    → Forward h a xs b
    → ((c : ℕ) → has c (a ∷ xs) ≡ true → g.next c ≡ h.next c)
    → Forward g a xs b
Forward-frame h g a [] b e n = ground (arith, n a)
Forward-frame h g a (x ∷ xs) b (e, f) n =
    (ground (arith, n a), Forward-frame h g x xs b f (λ c i. n c (ground arith)))

pub Forward-append :
    (h : Links) (a : ℕ) (xs : List ℕ) (e : ℕ) (ys : List ℕ) (b : ℕ)
    → Forward h a xs e
    → Forward h e ys b
    → Forward h a (xs ++ e ∷ ys) b
Forward-append h a [] e ys b c d = (c, d)
Forward-append h a (x ∷ xs) e ys b (l, c) d = (l, Forward-append h x xs e ys b c d)

-- the walk led to another end
pub Forward-end :
    (h g : Links) (a : ℕ) (xs : List ℕ) (b n : ℕ)
    → Forward h a xs b
    → distinct (a ∷ xs) ≡ true
    → ((c : ℕ) → has c (a ∷ xs) ≡ true → g.next c ≡ (if c == last_from a xs then n else h.next c))
    → Forward g a xs n
Forward-end h g a [] b n c d e = ground (arith, e a)
Forward-end h g a (x ∷ xs) b n (l, c) d e = (
  ground (arith, e a, has-last_from x xs),
  Forward-end h g x xs b n c (ground arith) (λ k i. e k (ground arith)),
)

-- the loop walks just these nodes
pub for_each-Forward :
    (h : Links) (fuel a : ℕ) (xs : List ℕ) (b : ℕ)
    → Forward h a xs b
    → has b xs ≡ false
    → length xs < fuel
    → cds_list_for_each fuel (h.next a) b h ≡ xs
unfolding cds_list_for_each
for_each-Forward h zero a xs b c d l = ground arith
for_each-Forward h (suc fuel) a [] b c d l = ground arith
for_each-Forward h (suc fuel) a (x ∷ xs) b c d l = ground (arith, for_each-Forward h fuel x xs b)
