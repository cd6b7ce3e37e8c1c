-- ===== src/Prelude/Distinct.antt =====
-- Lists of nodes none of which stands twice.
use Prim.Native.Nat.{ℕ}
use mathlib.Core.Path.{◌≡◌, refl}
use mathlib.Core.Bool.{Bool, true, false, not, ◌&&◌}
use mathlib.Core.List.{List, [], ◌∷◌, ◌++◌}
use native.Mathlib.Omega.{arith}
use userspace_rcu.Prelude.Nodes.{has, has-append}

abbrev pub distinct : List ℕ → Bool
distinct [] = true
distinct (x ∷ xs) = not (has x xs) && distinct xs

pub distinct-append :
    (xs ys : List ℕ)
    → distinct xs ≡ true
    → distinct ys ≡ true
    → ((c : ℕ) → has c xs ≡ true → has c ys ≡ false)
    → distinct (xs ++ ys) ≡ true
distinct-append [] ys d e f = e
distinct-append (x ∷ xs) ys d e f = ground (
  arith,
  f x,
  has-append x xs ys,
  distinct-append xs ys (ground arith) e (λ c i. f c (ground arith)),
)

pub distinct-left : (xs ys : List ℕ) → distinct (xs ++ ys) ≡ true → distinct xs ≡ true
distinct-left [] ys d = refl
distinct-left (x ∷ xs) ys d = ground (arith, has-append x xs ys, distinct-left xs ys)

pub distinct-right : (xs ys : List ℕ) → distinct (xs ++ ys) ≡ true → distinct ys ≡ true
distinct-right [] ys d = d
distinct-right (x ∷ xs) ys d = ground (arith, distinct-right xs ys)

pub distinct-apart :
    (xs ys : List ℕ) (c : ℕ) → distinct (xs ++ ys) ≡ true → has c xs ≡ true → has c ys ≡ false
distinct-apart [] ys c d i = cc
distinct-apart (x ∷ xs) ys c d i = ground (arith, has-append x xs ys, distinct-apart xs ys c)

pub distinct-insert :
    (xs : List ℕ) (e : ℕ) (ys : List ℕ)
    → distinct (xs ++ ys) ≡ true
    → has e (xs ++ ys) ≡ false
    → distinct (xs ++ e ∷ ys) ≡ true
distinct-insert [] e ys d f = ground arith
distinct-insert (x ∷ xs) e ys d f =
    ground (arith, has-append x xs ys, has-append x xs (e ∷ ys), distinct-insert xs e ys)

pub distinct-delete :
    (xs : List ℕ) (e : ℕ) (ys : List ℕ)
    → distinct (xs ++ e ∷ ys) ≡ true
    → (distinct (xs ++ ys) ≡ true) × (has e (xs ++ ys) ≡ false)
distinct-delete [] e ys d = (ground arith, ground arith)
distinct-delete (x ∷ xs) e ys d =
    let r = distinct-delete xs e ys (ground arith) in
    (
      ground (arith, has-append x xs ys, has-append x xs (e ∷ ys), r.0),
      ground (arith, has-append x xs (e ∷ ys), r.1),
    )

-- the last node of `a ∷ xs`
abbrev pub last_from : (a : ℕ) (xs : List ℕ) → ℕ
last_from a [] = a
last_from a (x ∷ xs) = last_from x xs

pub has-last_from : (a : ℕ) (xs : List ℕ) → has (last_from a xs) (a ∷ xs) ≡ true
has-last_from a [] = ground arith
has-last_from a (x ∷ xs) = ground (arith, has-last_from x xs)
