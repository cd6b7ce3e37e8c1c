-- ===== src/CdsList/Walk.antt =====
-- The loops over a list, and the test for an empty one: include/urcu/list.h.
use userspace_rcu.Prelude.{
  ℕ, zero, suc, ◌<◌, ◌≡◌, false, List, [], ◌∷◌, has, arith, refl, sym, is_empty, length, ◌+◌, ◌||◌,
}
use mathlib.Core.List.{reverse, reverse_aux}
use userspace_rcu.CdsList.{Links, cds_list_empty, cds_list_for_each, cds_list_for_each_prev}
use userspace_rcu.CdsList.Ring.{Chain, Ring}

-- the test for an empty list
pub cds_list_empty-iff_empty :
    (h : Links) (head : ℕ) (xs : List ℕ) → Ring h head xs → cds_list_empty head h ≡ is_empty xs
unfolding cds_list_empty
cds_list_empty-iff_empty h head [] (c, d) = ground arith
cds_list_empty-iff_empty h head (x ∷ xs) (c, d) = ground arith

for_each-Chain :
    (h : Links) (fuel a : ℕ) (xs : List ℕ) (b : ℕ)
    → Chain h a xs b
    → has b xs ≡ false
    → length xs < fuel
    → cds_list_for_each fuel (h.next a) b h ≡ xs
unfolding cds_list_for_each
for_each-Chain h zero a xs b c d l = ground arith
for_each-Chain h (suc fuel) a [] b c d l = ground arith
for_each-Chain h (suc fuel) a (x ∷ xs) b c d l = ground (arith, for_each-Chain h fuel x xs b)

-- the loop over a list
pub cds_list_for_each-all :
    (h : Links) (head : ℕ) (xs : List ℕ) (fuel : ℕ)
    → Ring h head xs
    → length xs < fuel
    → cds_list_for_each fuel (h.next head) head h ≡ xs
cds_list_for_each-all h head xs fuel (c, d) l =
    for_each-Chain h fuel head xs head c (ground arith) l

-- the same list read backwards
abbrev swap : Links → Links
swap h = record { next = h.prev; prev = h.next }

Chain-reverse_aux :
    (h : Links) (a : ℕ) (xs : List ℕ) (b : ℕ) (ys : List ℕ) (z : ℕ)
    → Chain h a xs b
    → Chain (swap h) a ys z
    → Chain (swap h) b (reverse_aux xs (a ∷ ys)) z
Chain-reverse_aux h a [] b ys z (n, p) c = ((p, n), c)
Chain-reverse_aux h a (x ∷ xs) b ys z ((n, p), d) c =
    Chain-reverse_aux h x xs b (a ∷ ys) z d ((p, n), c)

Chain-reverse :
    (h : Links) (a : ℕ) (xs : List ℕ) (b : ℕ) → Chain h a xs b → Chain (swap h) b (reverse xs) a
Chain-reverse h a [] b (n, p) = (p, n)
Chain-reverse h a (x ∷ xs) b ((n, p), c) = Chain-reverse_aux h x xs b [] a c (p, n)

has-reverse_aux : (c : ℕ) (xs ys : List ℕ) → has c (reverse_aux xs ys) ≡ (has c xs || has c ys)
has-reverse_aux c [] ys = refl
has-reverse_aux c (x ∷ xs) ys = ground (arith, has-reverse_aux c xs (x ∷ ys))

length-reverse_aux : (xs ys : List ℕ) → length (reverse_aux xs ys) ≡ length xs + length ys
length-reverse_aux [] ys = ground arith
length-reverse_aux (x ∷ xs) ys = ground (arith, length-reverse_aux xs (x ∷ ys))

for_each-swap :
    (h : Links) (fuel pos head : ℕ)
    → cds_list_for_each fuel pos head (swap h) ≡ cds_list_for_each_prev fuel pos head h
unfolding cds_list_for_each cds_list_for_each_prev
for_each-swap h zero pos head = refl
for_each-swap h (suc fuel) pos head = rw (for_each-swap h fuel (h.prev pos) head) refl

-- the loop backwards
pub cds_list_for_each_prev-all :
    (h : Links) (head : ℕ) (xs : List ℕ) (fuel : ℕ)
    → Ring h head xs
    → length xs < fuel
    → cds_list_for_each_prev fuel (h.prev head) head h ≡ reverse xs
cds_list_for_each_prev-all h head xs fuel (c, d) l =
    rw (sym (for_each-swap h fuel (h.prev head) head)) (
      for_each-Chain (swap h) fuel head (reverse xs) head (Chain-reverse h head xs head c)
        (ground (arith, has-reverse_aux head xs [])) (ground (arith, length-reverse_aux xs [])))

-- The loop over a list visits its nodes in order and ends, the one backwards visits them in the
-- reverse order and ends, each in as many rounds as there are nodes, and the test for an empty list
-- is true exactly if there is no node.
pub cds_list_for_each-in_order :
    (h : Links) (head : ℕ) (xs : List ℕ) (fuel : ℕ)
    → Ring h head xs
    → length xs < fuel
    → (cds_list_for_each fuel (h.next head) head h ≡ xs)
      × (cds_list_for_each_prev fuel (h.prev head) head h ≡ reverse xs)
      × (cds_list_empty head h ≡ is_empty xs)
cds_list_for_each-in_order h head xs fuel r l = (
  cds_list_for_each-all h head xs fuel r l,
  cds_list_for_each_prev-all h head xs fuel r l,
  cds_list_empty-iff_empty h head xs r,
)
