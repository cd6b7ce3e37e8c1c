-- ===== src/WfcQueue/Invariant.antt =====
-- What holds of the queue between any two steps.
use userspace_rcu.Prelude.{
  ℕ, ◌≡◌, ◌≢◌, Bool, true, false, refl, List, [], ◌∷◌, ◌++◌, arith, ◌==◌, has, has-append,
  if◌then◌else◌, distinct, last_from, has-last_from, is_empty, ◌∙◌,
}
use userspace_rcu.WfcQueue.{
  null, Place, returned, load_head, load_tail, sync_head, load_next, clear_head, swing_tail,
  sync_next, restore_head, advance_head, State, Event, append, link, node_init, call, go,
}
use userspace_rcu.WfcQueue.Segment.{Segment, Segment-frame, Segment-append, Segment-store}

-- the dequeuer has read the first node from the head
abbrev pub Holding : (n p : ℕ → ℕ) (h node : ℕ) (xs : List ℕ) → Type 0
Holding n p h node [] = false ≡ true
Holding n p h node (x ∷ xs) = (node ≡ x) × (x ≢ null) × (p h ≡ null) × Segment n p x xs

abbrev pub longer : List ℕ → Bool
longer [] = false
longer (x ∷ []) = false
longer (x ∷ y ∷ ys) = true

abbrev pub Standing : Place → (n p : ℕ → ℕ) (h : ℕ) (xs : List ℕ) → Type 0
Standing (returned r) n p h xs = Segment n p h xs
Standing (load_head b) n p h xs = Segment n p h xs
Standing (load_tail b) n p h xs = Segment n p h xs
Standing (sync_head b) n p h xs = Segment n p h xs × (is_empty xs ≡ false)
Standing (load_next b node) n p h xs = Holding n p h node xs × (n h ≡ node)
Standing (clear_head b node) n p h xs = Holding n p h node xs × (n h ≡ node)
Standing (swing_tail b node) n p h xs = Holding n p h node xs × (n h ≡ null)
Standing (sync_next b node) n p h xs = Holding n p h node xs × (n h ≡ null) × (longer xs ≡ true)
Standing (restore_head node) n p h xs = Holding n p h node xs × (n h ≡ null) × (longer xs ≡ true)
Standing (advance_head node next) n p h xs = Holding n p h node xs × (n node ≡ next) × (next ≢ null)

-- `xs` is what the queue holds: the nodes appended and not yet taken, in the order of the exchanges
abbrev pub Holds : State → List ℕ → Type 0
Holds s xs =
    (s.head ≢ null)
    × (distinct (s.head ∷ xs) ≡ true)
    × (s.tail ≡ last_from s.head xs)
    × Standing s.place s.next s.appending s.head xs

-- what its callers may do: append nodes of their own, linked among themselves, and reset such nodes
abbrev pub Allowed : Event → State → List ℕ → Type 0
Allowed (append x rest) s xs =
    (x ≢ null) × (distinct (s.head ∷ xs ++ x ∷ rest) ≡ true) × Segment s.next s.appending x rest
Allowed (node_init a) s xs = has a (s.head ∷ xs) ≡ false
Allowed (link a) s xs = true ≡ true
Allowed (call b) s xs = true ≡ true
Allowed go s xs = true ≡ true

pub last_from-append :
    (a : ℕ) (xs : List ℕ) (y : ℕ) (ys : List ℕ) → last_from a (xs ++ y ∷ ys) ≡ last_from y ys
last_from-append a [] y ys = refl
last_from-append a (x ∷ xs) y ys = last_from-append x xs y ys

Holding-has : (n p : ℕ → ℕ) (h node : ℕ) (xs : List ℕ) → Holding n p h node xs → has node xs ≡ true
Holding-has n p h node [] s = s
Holding-has n p h node (x ∷ xs) s = ground arith

Holding-frame :
    (n p m r : ℕ → ℕ) (h node : ℕ) (xs : List ℕ)
    → Holding n p h node xs
    → ((c : ℕ) → has c (h ∷ xs) ≡ true → (m c ≡ n c) × (r c ≡ p c))
    → Holding m r h node xs
Holding-frame n p m r h node [] s f = s
Holding-frame n p m r h node (x ∷ xs) (e, z, a, s) f =
    (e, z, ground (arith, f h), Segment-frame n p m r x xs s (λ c i. f c (ground arith)))

module _ (n p m r : ℕ → ℕ) (h : ℕ) (xs : List ℕ)
    (f : (c : ℕ) → has c (h ∷ xs) ≡ true → (m c ≡ n c) × (r c ≡ p c)) where
  pub Standing-frame : (q : Place) → Standing q n p h xs → Standing q m r h xs
  Standing-frame (returned _) s = Segment-frame n p m r h xs s f
  Standing-frame (load_head b) s = Segment-frame n p m r h xs s f
  Standing-frame (load_tail b) s = Segment-frame n p m r h xs s f
  Standing-frame (sync_head b) s = (Segment-frame n p m r h xs s.0 f, s.1)
  Standing-frame (load_next b k) s = (Holding-frame n p m r h k xs s.0 f, ground (arith, f h))
  Standing-frame (clear_head b k) s = (Holding-frame n p m r h k xs s.0 f, ground (arith, f h))
  Standing-frame (swing_tail b k) s = (Holding-frame n p m r h k xs s.0 f, ground (arith, f h))
  Standing-frame (sync_next b k) s = (Holding-frame n p m r h k xs s.0 f, ground (arith, f h), s.2)
  Standing-frame (restore_head k) s = (Holding-frame n p m r h k xs s.0 f, ground (arith, f h), s.2)
  Standing-frame (advance_head k y) s =
      (Holding-frame n p m r h k xs s.0 f, ground (arith, f k, Holding-has n p h k xs s.0), s.2)

Holding-append :
    (n p q : ℕ → ℕ) (h node : ℕ) (xs : List ℕ) (y : ℕ) (ys : List ℕ)
    → Holding n p h node xs
    → Segment n p y ys
    → y ≢ null
    → distinct (h ∷ xs ++ y ∷ ys) ≡ true
    → ((c : ℕ) → q c ≡ (if c == last_from h xs then y else p c))
    → Holding n q h node (xs ++ y ∷ ys)
Holding-append n p q h node [] y ys s t z d e = ground arith
Holding-append n p q h node (x ∷ xs) y ys (e, w, a, s) t z d f = (
  e,
  w,
  ground (arith, f h, has-last_from x xs, has-append h (x ∷ xs) (y ∷ ys)),
  Segment-append n p q x xs y ys s t z (ground arith) f,
)

Holding-store :
    (n p m q : ℕ → ℕ) (h node : ℕ) (xs : List ℕ) (k : ℕ)
    → Holding n p h node xs
    → (p k == null) ≡ false
    → ((c : ℕ) → m c ≡ (if c == k then p k else n c))
    → ((c : ℕ) → q c ≡ (if c == k then null else p c))
    → Holding m q h node xs
Holding-store n p m q h node [] k s z e f = s
Holding-store n p m q h node (x ∷ xs) k (a, w, b, s) z e f =
    (a, w, ground (arith, f h), Segment-store n p m q x xs k s z e f)

Holding-head : (n p : ℕ → ℕ) (h node : ℕ) (xs : List ℕ) → Holding n p h node xs → p h ≡ null
Holding-head n p h node [] s = ground arith
Holding-head n p h node (x ∷ xs) s = s.2

-- a stored link of the segment is not to be stored again
Segment-stored : (n p : ℕ → ℕ) (a : ℕ) (xs : List ℕ) → Segment n p a xs → n a ≢ null → p a ≡ null
Segment-stored n p a [] s z = s.1
Segment-stored n p a (x ∷ xs) s z = ground arith

Holding-stored :
    (n p : ℕ → ℕ) (h node : ℕ) (xs : List ℕ) → Holding n p h node xs → n node ≢ null → p node ≡ null
Holding-stored n p h node [] s z = ground arith
Holding-stored n p h node (x ∷ xs) (e, w, b, s) z = ground (arith, Segment-stored n p x xs s)

longer-append : (xs ys : List ℕ) → longer xs ≡ true → longer (xs ++ ys) ≡ true
longer-append [] ys l = ground arith
longer-append (x ∷ []) ys l = ground arith
longer-append (x ∷ y ∷ xs) ys l = refl

is_empty-append : (xs : List ℕ) (y : ℕ) (ys : List ℕ) → is_empty (xs ++ y ∷ ys) ≡ false
is_empty-append [] y ys = refl
is_empty-append (x ∷ xs) y ys = refl

-- an exchange of the tail appends
module _ (n p q : ℕ → ℕ) (h : ℕ) (xs : List ℕ) (y : ℕ) (ys : List ℕ) (t : Segment n p y ys)
    (z : y ≢ null) (d : distinct (h ∷ xs ++ y ∷ ys) ≡ true)
    (e : (c : ℕ) → q c ≡ (if c == last_from h xs then y else p c)) where
  pub Standing-append : (r : Place) → Standing r n p h xs → Standing r n q h (xs ++ y ∷ ys)
  Standing-append (returned _) s = Segment-append n p q h xs y ys s t z d e
  Standing-append (load_head b) s = Segment-append n p q h xs y ys s t z d e
  Standing-append (load_tail b) s = Segment-append n p q h xs y ys s t z d e
  Standing-append (sync_head b) s =
      (Segment-append n p q h xs y ys s.0 t z d e, is_empty-append xs y ys)
  Standing-append (load_next b k) s = (Holding-append n p q h k xs y ys s.0 t z d e, s.1)
  Standing-append (clear_head b k) s = (Holding-append n p q h k xs y ys s.0 t z d e, s.1)
  Standing-append (swing_tail b k) s = (Holding-append n p q h k xs y ys s.0 t z d e, s.1)
  Standing-append (sync_next b k) s =
      (Holding-append n p q h k xs y ys s.0 t z d e, s.1, longer-append xs (y ∷ ys) s.2)
  Standing-append (restore_head k) s =
      (Holding-append n p q h k xs y ys s.0 t z d e, s.1, longer-append xs (y ∷ ys) s.2)
  Standing-append (advance_head k v) s = (Holding-append n p q h k xs y ys s.0 t z d e, s.1, s.2)

-- a link is stored
module _ (n p m q : ℕ → ℕ) (h : ℕ) (xs : List ℕ) (k : ℕ) (z : (p k == null) ≡ false)
    (e : (c : ℕ) → m c ≡ (if c == k then p k else n c))
    (f : (c : ℕ) → q c ≡ (if c == k then null else p c)) where
  head_kept : (node : ℕ) → Holding n p h node xs → m h ≡ n h
  head_kept node s = ground (arith, e h, Holding-head n p h node xs s)

  pub Standing-store : (r : Place) → Standing r n p h xs → Standing r m q h xs
  Standing-store (returned _) s = Segment-store n p m q h xs k s z e f
  Standing-store (load_head b) s = Segment-store n p m q h xs k s z e f
  Standing-store (load_tail b) s = Segment-store n p m q h xs k s z e f
  Standing-store (sync_head b) s = (Segment-store n p m q h xs k s.0 z e f, s.1)
  Standing-store (load_next b j) s =
      (Holding-store n p m q h j xs k s.0 z e f, head_kept j s.0 ∙ s.1)
  Standing-store (clear_head b j) s =
      (Holding-store n p m q h j xs k s.0 z e f, head_kept j s.0 ∙ s.1)
  Standing-store (swing_tail b j) s =
      (Holding-store n p m q h j xs k s.0 z e f, head_kept j s.0 ∙ s.1)
  Standing-store (sync_next b j) s =
      (Holding-store n p m q h j xs k s.0 z e f, head_kept j s.0 ∙ s.1, s.2)
  Standing-store (restore_head j) s =
      (Holding-store n p m q h j xs k s.0 z e f, head_kept j s.0 ∙ s.1, s.2)
  Standing-store (advance_head j v) s = (
    Holding-store n p m q h j xs k s.0 z e f,
    ground (arith, e j, Holding-stored n p h j xs s.0),
    s.2,
  )
