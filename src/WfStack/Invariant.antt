-- ===== src/WfStack/Invariant.antt =====
-- What holds of the stack between any two steps.
use userspace_rcu.Prelude.{
  ℕ, ◌≡◌, ◌≢◌, ◌⊎◌, refl, true, false, List, [], ◌∷◌, arith, ◌==◌, has, if◌then◌else◌, distinct,
  drop, Bool-cases, inl, inr, ap, sym, ◌∙◌,
}
use userspace_rcu.WfStack.{
  null, end_mark, Pop, returned, load_head, sync_next, swap_head, take_all, State, pop,
}

-- the top of a stack with these nodes
abbrev pub top : List ℕ → ℕ
top [] = end_mark
top (x ∷ xs) = x

-- the link from `a` to `b` is there, or is to be stored
abbrev pub Link : (n l : ℕ → ℕ) (a b : ℕ) → Type 0
Link n l a b = ((n a ≡ b) × (l a ≡ null)) ⊎ ((n a ≡ null) × (l a ≡ b))

abbrev pub Linked : (n l : ℕ → ℕ) (xs : List ℕ) → Type 0
Linked n l [] = true ≡ true
Linked n l (x ∷ xs) = (x ≢ null) × (x ≢ end_mark) × Link n l x (top xs) × Linked n l xs

abbrev pub Popping : Pop → (n : ℕ → ℕ) (xs : List ℕ) → Type 0
Popping (returned r) n xs = true ≡ true
Popping (load_head b) n xs = true ≡ true
Popping (sync_next b head) n xs = has head xs ≡ true
Popping (swap_head b head new_head) n xs =
    (has head xs ≡ true) × (n head ≡ new_head) × (new_head ≢ null)
Popping take_all n xs = true ≡ true

-- `xs` is what the stack holds, the top first
abbrev pub Holds : State → List ℕ → Type 0
Holds s xs =
    (s.head ≡ top xs)
    × (distinct xs ≡ true)
    × Linked s.next s.linking xs
    × Popping s.popper s.next xs

pub Linked-frame :
    (n l m k : ℕ → ℕ) (xs : List ℕ)
    → Linked n l xs
    → ((c : ℕ) → has c xs ≡ true → (m c ≡ n c) × (k c ≡ l c))
    → Linked m k xs
Linked-frame n l m k [] s f = refl
Linked-frame n l m k (x ∷ xs) (z, e, h, s) f =
    (z, e, ground (arith, f x), Linked-frame n l m k xs s (λ c i. f c (ground arith)))

pub Linked-store :
    (n l m k : ℕ → ℕ) (xs : List ℕ) (a : ℕ)
    → Linked n l xs
    → (l a == null) ≡ false
    → ((c : ℕ) → m c ≡ (if c == a then l a else n c))
    → ((c : ℕ) → k c ≡ (if c == a then null else l c))
    → Linked m k xs
Linked-store n l m k [] a s z e f = refl
Linked-store n l m k (x ∷ xs) a (y, w, h, s) z e f =
    (y, w, ground (arith, e x, f x), Linked-store n l m k xs a s z e f)

-- a link that is there is not to be stored again
pub Linked-stored :
    (n l : ℕ → ℕ) (xs : List ℕ) (a : ℕ) → Linked n l xs → has a xs ≡ true → n a ≢ null → l a ≡ null
Linked-stored n l [] a s i z = ground arith
Linked-stored n l (x ∷ xs) a (y, w, h, s) i z = ground (arith, Linked-stored n l xs a s)

pub Popping-frame :
    (q : Pop) (n m : ℕ → ℕ) (xs ys : List ℕ)
    → Popping q n xs
    → ((c : ℕ) → has c xs ≡ true → has c ys ≡ true)
    → ((c : ℕ) → has c xs ≡ true → n c ≢ null → m c ≡ n c)
    → Popping q m ys
Popping-frame (returned r) n m xs ys p f g = refl
Popping-frame (load_head b) n m xs ys p f g = refl
Popping-frame (sync_next b head) n m xs ys p f g = f head p
Popping-frame (swap_head b head new_head) n m xs ys (p, e, z) f g =
    (f head p, ground (arith, g head p), z)
Popping-frame take_all n m xs ys p f g = refl

pub eq_of_test : (a b : ℕ) → (a == b) ≡ true → a ≡ b
eq_of_test a b e = ground arith

-- a stored link leads to the next node
pub Link-stored : (n l : ℕ → ℕ) (a b v : ℕ) → Link n l a b → n a ≡ v → v ≢ null → v ≡ b
Link-stored n l a b v h e z = ground arith

-- what the stack holds after a step of the popper
abbrev pub after_pop : Pop → State → List ℕ → List ℕ
after_pop (swap_head b head new_head) s xs = if s.head == head then drop 1 xs else xs
after_pop take_all s xs = []
after_pop _ s xs = xs

pub pop-Holds :
    (q : Pop) (s : State) (xs : List ℕ)
    → s.popper ≡ q
    → Holds s xs
    → Holds (pop q s) (after_pop q s xs)
unfolding pop
pop-Holds (returned r) s xs e w = w
pop-Holds (load_head b) s [] e (h, d, l, p) = elim (Bool-cases (s.head == end_mark)) [
  | inl c ↦ rw c (h, d, l, refl)
  | inr c ↦ ground arith
]
pop-Holds (load_head b) s (x ∷ xs) e (h, d, l, p) = elim (Bool-cases (s.head == end_mark)) [
  | inl c ↦ rw c (h, d, l, refl)
  | inr c ↦ rw c (h, d, l, ground arith)
]
pop-Holds (sync_next true head) s xs e (h, d, l, p) =
    let k : has head xs ≡ true = rw e at p in
    elim (Bool-cases (s.next head == null)) [
      | inl c ↦ rw c (h, d, l, k)
      | inr c ↦ rw c (h, d, l, (k, refl, ground arith))
    ]
pop-Holds (sync_next false head) s xs e (h, d, l, p) =
    let k : has head xs ≡ true = rw e at p in
    elim (Bool-cases (s.next head == null)) [
      | inl c ↦ rw c (h, d, l, refl)
      | inr c ↦ rw c (h, d, l, (k, refl, ground arith))
    ]
pop-Holds (swap_head b head new_head) s [] e (h, d, l, p) =
    let k : (false ≡ true) × (s.next head ≡ new_head) × (new_head ≢ null) = rw e at p in
    ground arith
pop-Holds (swap_head true head new_head) s (x ∷ xs) e (h, d, (y, w, v, l), p) =
    let k : (has head (x ∷ xs) ≡ true) × (s.next head ≡ new_head) × (new_head ≢ null) = rw e at p in
    elim (Bool-cases (s.head == head)) [
      | inl c ↦
          let a : s.next x ≡ new_head = ap s.next (sym h ∙ eq_of_test s.head head c) ∙ k.1 in
          rw c (Link-stored s.next s.linking x (top xs) new_head v a k.2, ground arith, l, refl)
      | inr c ↦ rw c (h, d, (y, w, v, l), refl)
    ]
pop-Holds (swap_head false head new_head) s (x ∷ xs) e (h, d, (y, w, v, l), p) =
    let k : (has head (x ∷ xs) ≡ true) × (s.next head ≡ new_head) × (new_head ≢ null) = rw e at p in
    elim (Bool-cases (s.head == head)) [
      | inl c ↦
          let a : s.next x ≡ new_head = ap s.next (sym h ∙ eq_of_test s.head head c) ∙ k.1 in
          rw c (Link-stored s.next s.linking x (top xs) new_head v a k.2, ground arith, l, refl)
      | inr c ↦ rw c (h, d, (y, w, v, l), refl)
    ]
pop-Holds take_all s xs e (h, d, l, p) = elim (Bool-cases (s.head == end_mark)) [
  | inl c ↦ rw c (refl, refl, refl, refl)
  | inr c ↦ rw c (refl, refl, refl, refl)
]
