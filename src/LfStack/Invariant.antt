-- ===== src/LfStack/Invariant.antt =====
-- What holds of the stack between any two steps.
use userspace_rcu.Prelude.{
  ℕ, ◌≡◌, ◌≢◌, refl, Bool, true, false, List, [], ◌∷◌, arith, ◌==◌, has, update, if◌then◌else◌,
  distinct, drop, Bool-cases, inl, inr, not, ap, sym, ◌∙◌,
}
use userspace_rcu.LfStack.{
  null, Push, pushed, pushing, Pop, popped, popped_all, load_head, load_next, swap_head, take_all,
  State, push, pop,
}

-- from `a` the links lead through `xs` to NULL
abbrev pub Chained : (next : ℕ → ℕ) (a : ℕ) (xs : List ℕ) → Type 0
Chained n a [] = a ≡ null
Chained n a (x ∷ xs) = (a ≡ x) × (x ≢ null) × Chained n (n x) xs

-- the node that a pusher still has to itself
abbrev pub private_node : Push → ℕ
private_node (pushed b) = null
private_node (pushing node head) = node

abbrev pub has_node : Push → Bool
has_node (pushed b) = true
has_node (pushing node head) = not (node == null)

abbrev pub Popping : Pop → (n : ℕ → ℕ) (xs : List ℕ) → Type 0
Popping (popped node) n xs = true ≡ true
Popping (popped_all head) n xs = true ≡ true
Popping load_head n xs = true ≡ true
Popping (load_next head) n xs = has head xs ≡ true
Popping (swap_head head next_head) n xs = (has head xs ≡ true) × (n head ≡ next_head)
Popping take_all n xs = true ≡ true

-- no pusher's node is on the stack, and no two have the same
abbrev pub Private : (pusher : ℕ → Push) (xs : List ℕ) → Type 0
Private w xs =
    ((i : ℕ) → has (private_node (w i)) xs ≡ false)
    × ((i j : ℕ) → i ≢ j → private_node (w i) ≡ private_node (w j) → private_node (w i) ≡ null)
    × ((i : ℕ) → has_node (w i) ≡ true)

-- `xs` is what the stack holds, the top first
abbrev pub Holds : State → List ℕ → Type 0
Holds s xs =
    Chained s.next s.head xs
    × (distinct xs ≡ true)
    × Private s.pusher xs
    × Popping s.popper s.next xs

pub Chained-frame :
    (n m : ℕ → ℕ) (a : ℕ) (xs : List ℕ)
    → Chained n a xs
    → ((c : ℕ) → has c xs ≡ true → m c ≡ n c)
    → Chained m a xs
Chained-frame n m a [] c f = c
Chained-frame n m a (x ∷ xs) (e, z, c) f =
    (e, z, rw (f x (ground arith)) (Chained-frame n m (n x) xs c (λ k i. f k (ground arith))))

Popping-frame :
    (q : Pop) (n m : ℕ → ℕ) (xs ys : List ℕ)
    → Popping q n xs
    → ((c : ℕ) → has c xs ≡ true → (m c ≡ n c) × (has c ys ≡ true))
    → Popping q m ys
Popping-frame (popped node) n m xs ys p f = refl
Popping-frame (popped_all head) n m xs ys p f = refl
Popping-frame load_head n m xs ys p f = refl
Popping-frame (load_next head) n m xs ys p f = (f head p).1
Popping-frame (swap_head head next_head) n m xs ys (p, e) f = ground (arith, f head p)
Popping-frame take_all n m xs ys p f = refl

pub Chained-null : (n : ℕ → ℕ) (a : ℕ) (xs : List ℕ) → Chained n a xs → has null xs ≡ false
Chained-null n a [] c = refl
Chained-null n a (x ∷ xs) (e, z, c) = ground (arith, Chained-null n (n x) xs c)

pub private-update :
    (w : ℕ → Push) (i : ℕ) (q : Push) (j : ℕ)
    → private_node (update w i q j) ≡ (if i == j then private_node q else private_node (w j))
private-update w i q j = elim (Bool-cases (i == j)) [ inl e ↦ rw e refl | inr e ↦ rw e refl ]

has_node-update :
    (w : ℕ → Push) (i : ℕ) (q : Push) (j : ℕ)
    → has_node (update w i q j) ≡ (if i == j then has_node q else has_node (w j))
has_node-update w i q j = elim (Bool-cases (i == j)) [ inl e ↦ rw e refl | inr e ↦ rw e refl ]

-- a pusher keeps its node, gives it away, or brings one
module _ (w : ℕ → Push) (i : ℕ) (q : Push) (xs : List ℕ) (p : Private w xs)
    (v : has_node q ≡ true) where
  has_node-kept : (j : ℕ) → has_node (update w i q j) ≡ true
  has_node-kept j = ground (arith, has_node-update w i q j, p.2 j)

  Private-same : private_node q ≡ private_node (w i) → Private (update w i q) xs
  Private-same e = (
    (λ j. ground (arith, private-update w i q j, p.0 i, p.0 j)),
    (λ j k.
        ground (arith, private-update w i q j, private-update w i q k, p.1 j k, p.1 j i, p.1 i k)),
    has_node-kept,
  )

  Private-given :
      (node : ℕ)
      → private_node (w i) ≡ node
      → private_node q ≡ null
      → node ≢ null
      → has null xs ≡ false
      → Private (update w i q) (node ∷ xs)
  Private-given node a e z n = (
    (λ j. ground (arith, private-update w i q j, p.0 j, p.1 i j, p.1 j i)),
    (λ j k. ground (arith, private-update w i q j, private-update w i q k, p.1 j k)),
    has_node-kept,
  )

  pub Private-started :
      has (private_node q) xs ≡ false
      → ((j : ℕ) → private_node (w j) ≢ private_node q)
      → Private (update w i q) xs
  Private-started o f = (
    (λ j. ground (arith, private-update w i q j, p.0 j)),
    (λ j k. ground (arith, private-update w i q j, private-update w i q k, p.1 j k, f j, f k)),
    has_node-kept,
  )

-- what the stack holds after a round of a push
abbrev pub after_push : Push → State → List ℕ → List ℕ
after_push (pushed b) s xs = xs
after_push (pushing node old_head) s xs = if s.head == old_head then node ∷ xs else xs

pub push-Holds :
    (i : ℕ) (q : Push) (s : State) (xs : List ℕ)
    → s.pusher i ≡ q
    → Holds s xs
    → Holds (push i q s) (after_push q s xs)
unfolding push
push-Holds i (pushed b) s xs e w = w
push-Holds i (pushing node old) s xs e (c, d, p, r) =
    let v : not (node == null) ≡ true = sym (ap has_node e) ∙ p.2 i in
    let z : node ≢ null = ground arith in
    let n : private_node (s.pusher i) ≡ node = ap private_node e in
    let o : has node xs ≡ false = ap (λ k. has k xs) (sym n) ∙ p.0 i in
    let given =
      Private-given s.pusher i (pushed (not (old == null))) xs p refl node n refl z
        (Chained-null s.next s.head xs c) in
    elim (Bool-cases (s.head == old)) [
      | inl h ↦
          let top : update s.next node old node ≡ s.head = ground arith in
          let a : Chained (update s.next node old) (update s.next node old node) xs =
            rw top (Chained-frame s.next (update s.next node old) s.head xs c (ground arith)) in
          rw h (
            (refl, z, a),
            ground arith,
            given,
            Popping-frame s.popper s.next _ xs (node ∷ xs) r (ground arith),
          )
      | inr h ↦ rw h (
        Chained-frame s.next _ s.head xs c (ground arith),
        d,
        Private-same s.pusher i (pushing node s.head) xs p v (sym n),
        Popping-frame s.popper s.next _ xs xs r (ground arith),
      )
    ]

-- the nodes that a step of the popper takes off
abbrev pub after_pop : Pop → State → List ℕ → List ℕ
after_pop (popped node) s xs = xs
after_pop (popped_all head) s xs = xs
after_pop load_head s xs = xs
after_pop (load_next head) s xs = xs
after_pop (swap_head head next_head) s xs = if s.head == head then drop 1 xs else xs
after_pop take_all s xs = []

Private-fewer :
    (w : ℕ → Push) (xs ys : List ℕ)
    → Private w xs
    → ((c : ℕ) → has c xs ≡ false → has c ys ≡ false)
    → Private w ys
Private-fewer w xs ys p f = ((λ i. f (private_node (w i)) (p.0 i)), p.1, p.2)

pub pop-Holds :
    (q : Pop) (s : State) (xs : List ℕ)
    → s.popper ≡ q
    → Holds s xs
    → Holds (pop q s) (after_pop q s xs)
unfolding pop
pop-Holds (popped node) s xs e w = w
pop-Holds (popped_all head) s xs e w = w
pop-Holds load_head s [] e (c, d, p, r) = elim (Bool-cases (s.head == null)) [
  | inl h ↦ rw h (c, d, p, refl)
  | inr h ↦ ground arith
]
pop-Holds load_head s (x ∷ xs) e (c, d, p, r) = elim (Bool-cases (s.head == null)) [
  | inl h ↦ rw h (c, d, p, refl)
  | inr h ↦ rw h (c, d, p, ground arith)
]
pop-Holds (load_next head) s xs e (c, d, p, r) = (c, d, p, (rw e at r, refl))
pop-Holds (swap_head head next_head) s [] e (c, d, p, r) =
    let k : (false ≡ true) × (s.next head ≡ next_head) = rw e at r in ground arith
pop-Holds (swap_head head next_head) s (x ∷ xs) e ((a, z, c), d, p, r) =
    let k : (has head (x ∷ xs) ≡ true) × (s.next head ≡ next_head) = rw e at r in
    elim (Bool-cases (s.head == head)) [
      | inl h ↦
          let q : next_head ≡ s.next x = ground arith in
          let b : Chained s.next next_head xs = rw q c in
          rw h (b, ground arith, Private-fewer s.pusher (x ∷ xs) xs p (ground arith), refl)
      | inr h ↦ rw h ((a, z, c), d, p, refl)
    ]
pop-Holds take_all s xs e (c, d, p, r) =
    (refl, refl, Private-fewer s.pusher xs [] p (λ c i. refl), refl)
