-- ===== src/WfcQueue/Answers.antt =====
-- What the answers of the dequeuer say, and that it gives one.
use userspace_rcu.Prelude.{
  ℕ, zero, suc, ◌≤◌, ◌≡◌, inl, inr, Bool, true, false, refl, List, [], ◌∷◌, arith, ◌==◌,
  has-last_from, is_empty, Bool-cases, ap, ◌∙◌, replicate,
}
use userspace_rcu.WfcQueue.{
  null, Answer, empty, would_block, node_of, Place, returned, load_head, load_tail, sync_head,
  load_next, clear_head, swing_tail, sync_next, restore_head, advance_head, State, dequeue, go,
  step,
}
use userspace_rcu.WfcQueue.Invariant.{Holds}
use userspace_rcu.WfcQueue.Dequeue.{HoldsAt}
use userspace_rcu.WfcQueue.Fifo.{run, after, step-Holds}

-- NULL for an empty queue only, and a node with the state LAST exactly if it is the only one
abbrev pub Exact : Answer → List ℕ → Type 0
Exact empty xs = xs ≡ []
Exact would_block xs = true ≡ true
Exact (node_of node last) [] = false ≡ true
Exact (node_of node last) (x ∷ xs) = (node ≡ x) × (last ≡ is_empty xs)

abbrev pub ExactAt : (before after : Place) → List ℕ → Type 0
ExactAt (returned _) q xs = true ≡ true
ExactAt _ (returned r) xs = Exact r xs
ExactAt _ _ xs = true ≡ true

load_tail-Exact :
    (b : Bool) (s : State) (xs : List ℕ)
    → HoldsAt (load_tail b) s xs
    → ExactAt (load_tail b) (dequeue (load_tail b) s).place xs
unfolding dequeue
load_tail-Exact b s [] w = elim (Bool-cases (s.tail == s.head)) [
  | inl e ↦ rw e refl
  | inr e ↦ rw e refl
]
load_tail-Exact b s (x ∷ xs) (z, d, t, w) =
    let e : (s.tail == s.head) ≡ false = ground (arith, has-last_from x xs) in rw e refl

swing_tail-Exact :
    (b : Bool) (node : ℕ) (s : State) (xs : List ℕ)
    → HoldsAt (swing_tail b node) s xs
    → ExactAt (swing_tail b node) (dequeue (swing_tail b node) s).place xs
unfolding dequeue
swing_tail-Exact b node s [] (z, d, t, w) = ground arith
swing_tail-Exact b node s (x ∷ []) (z, d, t, ((e, y, a, w), v)) =
    let q : (s.tail == node) ≡ true = ground arith in rw q (e, refl)
swing_tail-Exact b node s (x ∷ k ∷ xs) (z, d, t, ((e, y, a, w), v)) =
    let q : (s.tail == node) ≡ false = ground (arith, has-last_from k xs) in rw q refl

pub dequeue-Exact :
    (q : Place) (s : State) (xs : List ℕ) → HoldsAt q s xs → ExactAt q (dequeue q s).place xs
unfolding dequeue
dequeue-Exact (returned r) s xs w = refl
dequeue-Exact (load_head b) s xs w = elim (Bool-cases (s.next s.head == null)) [
  | inl e ↦ rw e refl
  | inr e ↦ rw e refl
]
dequeue-Exact (load_tail b) s xs w = load_tail-Exact b s xs w
dequeue-Exact (sync_head true) s xs w = elim (Bool-cases (s.next s.head == null)) [
  | inl e ↦ rw e refl
  | inr e ↦ rw e refl
]
dequeue-Exact (sync_head false) s xs w = elim (Bool-cases (s.next s.head == null)) [
  | inl e ↦ rw e refl
  | inr e ↦ rw e refl
]
dequeue-Exact (load_next b node) s xs w = elim (Bool-cases (s.next node == null)) [
  | inl e ↦ rw e refl
  | inr e ↦ rw e refl
]
dequeue-Exact (clear_head b node) s xs w = refl
dequeue-Exact (swing_tail b node) s xs w = swing_tail-Exact b node s xs w
dequeue-Exact (sync_next true node) s xs w = elim (Bool-cases (s.next node == null)) [
  | inl e ↦ rw e refl
  | inr e ↦ rw e refl
]
dequeue-Exact (sync_next false node) s xs w = elim (Bool-cases (s.next node == null)) [
  | inl e ↦ rw e refl
  | inr e ↦ rw e refl
]
dequeue-Exact (restore_head node) s xs w = refl
dequeue-Exact (advance_head node next) s [] (z, d, t, (w, v, u)) = w
dequeue-Exact (advance_head node next) s (x ∷ []) (z, d, t, ((e, y, a, w), v, u)) = ground arith
dequeue-Exact (advance_head node next) s (x ∷ k ∷ xs) (z, d, t, ((e, y, a, w), v, u)) = (e, refl)

-- The dequeuer returns NULL only if the queue is empty at that step, and a node only if it is the
-- first one, with the state LAST exactly if it is the only one.
pub answer-exact : (s : State) (xs : List ℕ) → Holds s xs → ExactAt s.place (step go s).place xs
unfolding step
answer-exact s xs w = dequeue-Exact s.place s xs w

-- no thread is between its exchange and its store
abbrev pub Quiet : State → Type 0
Quiet s = (a : ℕ) → s.appending a ≡ null

-- the steps to an answer while no append is in flight
abbrev rank : Place → ℕ
rank (returned r) = 0
rank (advance_head node next) = 1
rank (restore_head node) = 1
rank (sync_next b node) = 2
rank (swing_tail b node) = 3
rank (clear_head b node) = 4
rank (load_next b node) = 5
rank (sync_head b) = 6
rank (load_tail b) = 7
rank (load_head b) = 8

rank-dequeue :
    (q : Place) (s : State) (xs : List ℕ) (m : ℕ)
    → HoldsAt q s xs
    → Quiet s
    → rank q ≤ suc m
    → s.place ≡ q
    → (rank (dequeue q s).place ≤ m) × ((dequeue q s).appending ≡ s.appending)
unfolding dequeue
rank-dequeue (returned r) s xs m w q l e = (rw e (ground arith), refl)
rank-dequeue (load_head b) s xs m w q l e = elim (Bool-cases (s.next s.head == null)) [
  | inl c ↦ rw c (ground arith, refl)
  | inr c ↦ rw c (ground arith, refl)
]
rank-dequeue (load_tail b) s xs m w q l e = elim (Bool-cases (s.tail == s.head)) [
  | inl c ↦ rw c (ground arith, refl)
  | inr c ↦ rw c (ground arith, refl)
]
rank-dequeue (load_next b node) s xs m w q l e = elim (Bool-cases (s.next node == null)) [
  | inl c ↦ rw c (ground arith, refl)
  | inr c ↦ rw c (ground arith, refl)
]
rank-dequeue (swing_tail b node) s xs m w q l e = elim (Bool-cases (s.tail == node)) [
  | inl c ↦ rw c (ground arith, refl)
  | inr c ↦ rw c (ground arith, refl)
]
rank-dequeue (clear_head b node) s xs m w q l e = (ground arith, refl)
rank-dequeue (restore_head node) s xs m w q l e = (ground arith, refl)
rank-dequeue (advance_head node next) s xs m w q l e = (ground arith, refl)
rank-dequeue (sync_head b) s [] m (z, d, t, (w, v)) q l e = ground arith
rank-dequeue (sync_head b) s (x ∷ xs) m (z, d, t, (w, v)) q l e =
    let c : (s.next s.head == null) ≡ false = ground (arith, q s.head) in rw c (ground arith, refl)
rank-dequeue (sync_next b node) s [] m (z, d, t, (w, v, u)) q l e = ground arith
rank-dequeue (sync_next b node) s (x ∷ []) m (z, d, t, (w, v, u)) q l e = ground arith
rank-dequeue (sync_next b node) s (x ∷ k ∷ xs) m (z, d, t, ((a, y, c, w), v, u)) q l e =
    let c : (s.next node == null) ≡ false = ground (arith, q node) in rw c (ground arith, refl)

abbrev pub has_returned : Place → Bool
has_returned (returned r) = true
has_returned _ = false

returned_of_rank : (q : Place) → rank q ≤ 0 → has_returned q ≡ true
returned_of_rank (returned r) l = refl
returned_of_rank (load_head b) l = ground arith
returned_of_rank (load_tail b) l = ground arith
returned_of_rank (sync_head b) l = ground arith
returned_of_rank (load_next b k) l = ground arith
returned_of_rank (clear_head b k) l = ground arith
returned_of_rank (swing_tail b k) l = ground arith
returned_of_rank (sync_next b k) l = ground arith
returned_of_rank (restore_head k) l = ground arith
returned_of_rank (advance_head k v) l = ground arith

answers_by_rank :
    (m : ℕ) (s : State) (xs : List ℕ)
    → Holds s xs
    → Quiet s
    → rank s.place ≤ m
    → has_returned (run (replicate m go) s).place ≡ true
unfolding run step
answers_by_rank zero s xs w q l = returned_of_rank s.place l
answers_by_rank (suc m) s xs w q l =
    let r = rank-dequeue s.place s xs m w q l refl in
    answers_by_rank m (step go s) (after go s xs) (step-Holds go s xs w refl).0
      (λ a. ap (λ f. f a) r.1 ∙ q a) r.0

rank-bound : (q : Place) → rank q ≤ 8
rank-bound (returned r) = ground arith
rank-bound (load_head b) = ground arith
rank-bound (load_tail b) = ground arith
rank-bound (sync_head b) = ground arith
rank-bound (load_next b k) = ground arith
rank-bound (clear_head b k) = ground arith
rank-bound (swing_tail b k) = ground arith
rank-bound (sync_next b k) = ground arith
rank-bound (restore_head k) = ground arith
rank-bound (advance_head k v) = ground arith

-- While no append is in flight, eight steps bring the dequeuer to an answer, wherever it stands.
pub dequeue-answers :
    (s : State) (xs : List ℕ)
    → Holds s xs
    → Quiet s
    → has_returned (run (replicate 8 go) s).place ≡ true
dequeue-answers s xs w q = answers_by_rank 8 s xs w q (rank-bound s.place)
