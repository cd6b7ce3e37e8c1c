-- ===== src/WfStack/Answers.antt =====
-- What the answers of the popper say.
use userspace_rcu.Prelude.{
  ℕ, ◌≡◌, ◌≢◌, refl, Bool, true, false, List, [], ◌∷◌, arith, ◌==◌, has, Bool-cases, inl, inr,
  is_empty, ap, sym, ◌∙◌,
}
use userspace_rcu.WfStack.{
  null, end_mark, Answer, empty, node_of, all_from, Pop, returned, load_head, sync_next, swap_head,
  take_all, State, pop, go, step,
}
use userspace_rcu.WfStack.Invariant.{Linked, Holds, top, after_pop, Link-stored, eq_of_test}
use userspace_rcu.WfStack.Contents.{after}

-- what an answer says of the contents before and after the step that gives it
abbrev pub Told : (before : Pop) (answer : Answer) (xs ys : List ℕ) → Type 0
Told (swap_head b h v) (node_of node last) xs ys = (xs ≡ node ∷ ys) × (last ≡ is_empty ys)
Told take_all empty xs ys = xs ≡ []
Told take_all (all_from head) xs ys = (head ≡ top xs) × (is_empty xs ≡ false)
Told (load_head b) empty xs ys = xs ≡ []
Told _ _ xs ys = true ≡ true

abbrev pub ToldBy : (before after : Pop) (xs ys : List ℕ) → Type 0
ToldBy (returned r) q xs ys = true ≡ true
ToldBy p (returned r) xs ys = Told p r xs ys
ToldBy p q xs ys = true ≡ true

is_end-top : (n l : ℕ → ℕ) (xs : List ℕ) → Linked n l xs → (top xs == end_mark) ≡ is_empty xs
is_end-top n l [] w = ground arith
is_end-top n l (x ∷ xs) (y, z, t, w) = ground arith

load_head-Told :
    (b : Bool) (s : State) (xs : List ℕ)
    → Holds s xs
    → ToldBy (load_head b) (pop (load_head b) s).popper xs xs
unfolding pop
load_head-Told b s [] (h, d, l, p) = elim (Bool-cases (s.head == end_mark)) [
  | inl c ↦ rw c refl
  | inr c ↦ rw c refl
]
load_head-Told b s (x ∷ xs) (h, d, (y, z, t, l), p) =
    let c : (s.head == end_mark) ≡ false = ground arith in rw c refl

take_all-Told :
    (s : State) (xs : List ℕ) → Holds s xs → ToldBy take_all (pop take_all s).popper xs []
unfolding pop
take_all-Told s [] (h, d, l, p) = let c : (s.head == end_mark) ≡ true = ground arith in rw c refl
take_all-Told s (x ∷ xs) (h, d, (y, z, t, l), p) =
    let c : (s.head == end_mark) ≡ false = ground arith in rw c (h, refl)

swap_head-Told :
    (b : Bool) (head v : ℕ) (s : State) (xs : List ℕ)
    → s.popper ≡ swap_head b head v
    → Holds s xs
    → ToldBy
        (swap_head b head v)
        (pop (swap_head b head v) s).popper
        xs
        (after_pop (swap_head b head v) s xs)
unfolding pop
swap_head-Told b head v s [] e (h, d, l, p) =
    let k : (false ≡ true) × (s.next head ≡ v) × (v ≢ null) = rw e at p in ground arith
swap_head-Told true head v s (x ∷ xs) e (h, d, (y, z, t, l), p) =
    let k : (has head (x ∷ xs) ≡ true) × (s.next head ≡ v) × (v ≢ null) = rw e at p in
    elim (Bool-cases (s.head == head)) [
      | inl c ↦
          let a : x ≡ head = sym h ∙ eq_of_test s.head head c in
          let w : v ≡ top xs =
            Link-stored s.next s.linking x (top xs) v t (ap s.next a ∙ k.1) k.2 in
          rw c (ap (λ m. m ∷ xs) a, ap (λ m. m == end_mark) w ∙ is_end-top s.next s.linking xs l)
      | inr c ↦ rw c refl
    ]
swap_head-Told false head v s (x ∷ xs) e (h, d, (y, z, t, l), p) =
    let k : (has head (x ∷ xs) ≡ true) × (s.next head ≡ v) × (v ≢ null) = rw e at p in
    elim (Bool-cases (s.head == head)) [
      | inl c ↦
          let a : x ≡ head = sym h ∙ eq_of_test s.head head c in
          let w : v ≡ top xs =
            Link-stored s.next s.linking x (top xs) v t (ap s.next a ∙ k.1) k.2 in
          rw c (ap (λ m. m ∷ xs) a, ap (λ m. m == end_mark) w ∙ is_end-top s.next s.linking xs l)
      | inr c ↦ rw c refl
    ]

sync_next-Told :
    (b : Bool) (head : ℕ) (s : State) (xs : List ℕ)
    → ToldBy (sync_next b head) (pop (sync_next b head) s).popper xs xs
unfolding pop
sync_next-Told true head s xs = elim (Bool-cases (s.next head == null)) [
  | inl c ↦ rw c refl
  | inr c ↦ rw c refl
]
sync_next-Told false head s xs = elim (Bool-cases (s.next head == null)) [
  | inl c ↦ rw c refl
  | inr c ↦ rw c refl
]

pop-Told :
    (q : Pop) (s : State) (xs : List ℕ)
    → s.popper ≡ q
    → Holds s xs
    → ToldBy q (pop q s).popper xs (after_pop q s xs)
pop-Told (returned r) s xs e w = refl
pop-Told (load_head b) s xs e w = load_head-Told b s xs w
pop-Told (sync_next b head) s xs e w = sync_next-Told b head s xs
pop-Told (swap_head b head v) s xs e w = swap_head-Told b head v s xs e w
pop-Told take_all s xs e w = take_all-Told s xs w

-- A pop returns NULL only from an empty stack, and otherwise the top node, which it takes off, with
-- the state LAST exactly if the stack is then empty; a pop of all returns NULL only from an empty
-- stack, and otherwise the top node.
pub pop-answers :
    (s : State) (xs : List ℕ) → Holds s xs → ToldBy s.popper (step go s).popper xs (after go s xs)
unfolding step
pop-answers s xs w = pop-Told s.popper s xs refl w
