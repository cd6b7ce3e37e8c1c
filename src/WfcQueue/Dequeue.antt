-- ===== src/WfcQueue/Dequeue.antt =====
-- The steps of the dequeuer keep the invariant, and take the first node or none.
use userspace_rcu.Prelude.{
  ℕ, ◌≡◌, ◌≢◌, inl, inr, Bool, true, false, refl, List, [], ◌∷◌, ◌++◌, arith, ◌==◌, distinct,
  last_from, has-last_from, is_empty, drop, length, Bool-cases,
}
use userspace_rcu.WfcQueue.{
  null, Place, returned, load_head, load_tail, sync_head, load_next, clear_head, swing_tail,
  sync_next, restore_head, advance_head, State, dequeue, taken_from,
}
use userspace_rcu.WfcQueue.Segment.{Segment-frame}
use userspace_rcu.WfcQueue.Invariant.{Standing, Holds}

-- the invariant but for the place
abbrev pub HoldsAt : Place → State → List ℕ → Type 0
HoldsAt q s xs =
    (s.head ≢ null)
    × (distinct (s.head ∷ xs) ≡ true)
    × (s.tail ≡ last_from s.head xs)
    × Standing q s.next s.appending s.head xs

-- a step of the dequeuer takes these nodes off the front, and leaves the invariant for the others
abbrev Takes : Place → State → List ℕ → Type 0
Takes q s xs =
    Holds (dequeue q s) (drop (length (taken_from q s)) xs)
    × (xs ≡ taken_from q s ++ drop (length (taken_from q s)) xs)

load_head-Takes :
    (b : Bool) (s : State) (xs : List ℕ) → HoldsAt (load_head b) s xs → Takes (load_head b) s xs
unfolding dequeue
load_head-Takes b s [] (z, d, t, w) = elim (Bool-cases (s.next s.head == null)) [
  | inl e ↦ rw e ((z, d, t, w), refl)
  | inr e ↦ ground arith
]
load_head-Takes b s (x ∷ xs) (z, d, t, w) = elim (Bool-cases (s.next s.head == null)) [
  | inl e ↦ rw e ((z, d, t, w), refl)
  | inr e ↦ rw e ((z, d, t, (w, refl)), refl)
]

nonempty_of_tail : (h : ℕ) (xs : List ℕ) → (last_from h xs == h) ≡ false → is_empty xs ≡ false
nonempty_of_tail h [] e = ground arith
nonempty_of_tail h (x ∷ xs) e = refl

load_tail-Takes :
    (b : Bool) (s : State) (xs : List ℕ) → HoldsAt (load_tail b) s xs → Takes (load_tail b) s xs
unfolding dequeue
load_tail-Takes b s xs (z, d, t, w) = elim (Bool-cases (s.tail == s.head)) [
  | inl e ↦ rw e ((z, d, t, w), refl)
  | inr e ↦ rw e ((z, d, t, (w, nonempty_of_tail s.head xs (ground arith))), refl)
]

sync_head-Takes :
    (b : Bool) (s : State) (xs : List ℕ) → HoldsAt (sync_head b) s xs → Takes (sync_head b) s xs
unfolding dequeue
sync_head-Takes b s [] (z, d, t, w) = ground arith
sync_head-Takes true s (x ∷ xs) (z, d, t, (w, v)) = elim (Bool-cases (s.next s.head == null)) [
  | inl e ↦ rw e ((z, d, t, (w, v)), refl)
  | inr e ↦ rw e ((z, d, t, ((ground arith, w.1, ground arith, w.2), refl)), refl)
]
sync_head-Takes false s (x ∷ xs) (z, d, t, (w, v)) = elim (Bool-cases (s.next s.head == null)) [
  | inl e ↦ rw e ((z, d, t, w), refl)
  | inr e ↦ rw e ((z, d, t, ((ground arith, w.1, ground arith, w.2), refl)), refl)
]

load_next-Takes :
    (b : Bool) (node : ℕ) (s : State) (xs : List ℕ)
    → HoldsAt (load_next b node) s xs
    → Takes (load_next b node) s xs
unfolding dequeue
load_next-Takes b node s xs (z, d, t, (w, v)) = elim (Bool-cases (s.next node == null)) [
  | inl e ↦ rw e ((z, d, t, (w, v)), refl)
  | inr e ↦ rw e ((z, d, t, (w, refl, ground arith)), refl)
]

clear_head-Takes :
    (b : Bool) (node : ℕ) (s : State) (xs : List ℕ)
    → HoldsAt (clear_head b node) s xs
    → Takes (clear_head b node) s xs
unfolding dequeue
clear_head-Takes b node s [] (z, d, t, (w, v)) = ground arith
clear_head-Takes b node s (x ∷ xs) (z, d, t, ((e, y, a, w), v)) = (
  (
    z,
    d,
    t,
    (
      (
        e,
        y,
        a,
        Segment-frame s.next s.appending _ s.appending x xs w (λ c i. (ground arith, refl)),
      ),
      ground arith,
    ),
  ),
  refl,
)

swing_tail-Takes :
    (b : Bool) (node : ℕ) (s : State) (xs : List ℕ)
    → HoldsAt (swing_tail b node) s xs
    → Takes (swing_tail b node) s xs
unfolding dequeue
swing_tail-Takes b node s [] (z, d, t, (w, v)) = ground arith
swing_tail-Takes b node s (x ∷ []) (z, d, t, ((e, y, a, w), v)) =
    let q : (s.tail == node) ≡ true = ground arith in rw q ((z, refl, refl, (v, a)), ground arith)
swing_tail-Takes b node s (x ∷ k ∷ xs) (z, d, t, ((e, y, a, w), v)) =
    let q : (s.tail == node) ≡ false = ground (arith, has-last_from k xs) in
    rw q ((z, d, t, ((e, y, a, w), v, refl)), refl)

sync_next-Takes :
    (b : Bool) (node : ℕ) (s : State) (xs : List ℕ)
    → HoldsAt (sync_next b node) s xs
    → Takes (sync_next b node) s xs
unfolding dequeue
sync_next-Takes true node s xs (z, d, t, (w, v, l)) = elim (Bool-cases (s.next node == null)) [
  | inl e ↦ rw e ((z, d, t, (w, v, l)), refl)
  | inr e ↦ rw e ((z, d, t, (w, refl, ground arith)), refl)
]
sync_next-Takes false node s xs (z, d, t, (w, v, l)) = elim (Bool-cases (s.next node == null)) [
  | inl e ↦ rw e ((z, d, t, (w, v, l)), refl)
  | inr e ↦ rw e ((z, d, t, (w, refl, ground arith)), refl)
]

restore_head-Takes :
    (node : ℕ) (s : State) (xs : List ℕ)
    → HoldsAt (restore_head node) s xs
    → Takes (restore_head node) s xs
unfolding dequeue
restore_head-Takes node s [] (z, d, t, (w, v, l)) = ground arith
restore_head-Takes node s (x ∷ xs) (z, d, t, ((e, y, a, w), v, l)) = (
  (
    z,
    d,
    t,
    (
      inl (ground arith, a),
      y,
      Segment-frame s.next s.appending _ s.appending x xs w (λ c i. (ground arith, refl)),
    ),
  ),
  refl,
)

advance_head-Takes :
    (node next : ℕ) (s : State) (xs : List ℕ)
    → HoldsAt (advance_head node next) s xs
    → Takes (advance_head node next) s xs
unfolding dequeue
advance_head-Takes node next s [] (z, d, t, (w, v, u)) = ground arith
advance_head-Takes node next s (x ∷ []) (z, d, t, ((e, y, a, w), v, u)) = ground arith
advance_head-Takes node next s (x ∷ k ∷ xs) (z, d, t, ((e, y, a, (l, g, w)), v, u)) = (
  (
    z,
    ground arith,
    t,
    (
      inl (ground arith, a),
      g,
      Segment-frame s.next s.appending _ s.appending k xs w (λ c i. (ground arith, refl)),
    ),
  ),
  ground arith,
)

pub dequeue-Takes :
    (q : Place) (s : State) (xs : List ℕ) → HoldsAt q s xs → s.place ≡ q → Takes q s xs
unfolding dequeue
dequeue-Takes (returned r) s xs w e = (rw e w, refl)
dequeue-Takes (load_head b) s xs w e = load_head-Takes b s xs w
dequeue-Takes (load_tail b) s xs w e = load_tail-Takes b s xs w
dequeue-Takes (sync_head b) s xs w e = sync_head-Takes b s xs w
dequeue-Takes (load_next b node) s xs w e = load_next-Takes b node s xs w
dequeue-Takes (clear_head b node) s xs w e = clear_head-Takes b node s xs w
dequeue-Takes (swing_tail b node) s xs w e = swing_tail-Takes b node s xs w
dequeue-Takes (sync_next b node) s xs w e = sync_next-Takes b node s xs w
dequeue-Takes (restore_head node) s xs w e = restore_head-Takes node s xs w
dequeue-Takes (advance_head node next) s xs w e = advance_head-Takes node next s xs w
