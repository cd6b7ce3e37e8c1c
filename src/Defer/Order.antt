-- ===== src/Defer/Order.antt =====
-- Queueing and reclaiming: callbacks are called in order, each once, behind a grace period.
use mathlib.Core.Path.{subst}
use mathlib.Core.List.{cons≢nil}
use userspace_rcu.Prelude.{
  ℕ, ◌+◌, ◌-◌, ◌≤◌, ◌<◌, ◌≡◌, refl, List, [], ◌∷◌, ◌++◌, arith, length, length-append, word,
  add_word, update, some, if◌then◌else◌, map, sym, Bool-cases, inl, inr, append_assoc, append-nil,
}
use userspace_rcu.Defer.{
  Callback, Queue, Act, call, synchronize_rcu, dq_fct_mark, slot, defer_queue_size,
  rcu_defer_barrier_queue, rcu_defer_barrier_thread, put, encode, put_item, awkward, changed,
  defer_rcu, set_fct_bit,
}
use userspace_rcu.Defer.Encoding.{
  Encodes, done, plain, flagged, marked, Encodes-append, Encodes-nil, Encodes-cons,
}
use userspace_rcu.Defer.Ring.{
  Segment, Segment-append, Holds, used-Holds, rcu_defer_barrier_queue-Holds,
}

-- What `put` has written so far behind index `i`.
record Written (i : ℕ) (s : (ℕ → ℕ) × ℕ) (ws : List ℕ) : Type 0 where
  segment : Segment s.0 i ws
  head_at : s.1 ≡ add_word i (length ws)

Written-put :
    (i v : ℕ) {s : (ℕ → ℕ) × ℕ} {ws : List ℕ}
    → i < word
    → length ws < defer_queue_size
    → Written i s ws
    → Written i (put v s) (ws ++ v ∷ [])
Written-put i v {s} {ws} r k w = record {
  segment =
      subst (λ h. Segment (update s.0 (slot h) v) i (ws ++ v ∷ [])) (sym w.head_at)
        (Segment-append s.0 i v ws r k w.segment);
  head_at = omega (arith, w.head_at, length-append {0} ws (v ∷ []));
}

-- the words that `encode` writes
abbrev words : (last_fct_in fct p : ℕ) → List ℕ
words last fct p =
    if changed last fct p
    then (if awkward fct then dq_fct_mark ∷ fct ∷ p ∷ [] else set_fct_bit fct ∷ p ∷ [])
    else p ∷ []

length-words : (last fct p : ℕ) → length (words last fct p) ≤ 3
length-words last fct p = ground arith

words-Encodes :
    (last fct p : ℕ)
    → Encodes last (words last fct p) ((fct, p) ∷ []) (if changed last fct p then fct else last)
words-Encodes last fct p = elim (Bool-cases (changed last fct p)) [
  | inl e ↦ elim (Bool-cases (awkward fct)) [
    | inl a ↦ rw (e, a) (marked refl done)
    | inr a ↦ rw (e, a) (flagged (ground arith) (ground arith) done)
  ]
  | inr e ↦
      let same : last ≡ fct = ground arith in
      rw (e, ← same) (plain (ground arith) (ground arith) done)
]

Written-put_item :
    (i last fct p : ℕ) {s : (ℕ → ℕ) × ℕ} {ws : List ℕ}
    → i < word
    → length ws + 3 ≤ defer_queue_size
    → Written i s ws
    → Written i (put_item last fct p s) (ws ++ words last fct p)
unfolding put_item
Written-put_item i last fct p {s} {ws} r k w = elim (Bool-cases (changed last fct p)) [
  | inl e ↦ elim (Bool-cases (awkward fct)) [
    | inl a ↦
        rw
          (
            e,
            a,
            ← append_assoc ws (dq_fct_mark ∷ []) (fct ∷ p ∷ []),
            ← append_assoc (ws ++ dq_fct_mark ∷ []) (fct ∷ []) (p ∷ []),
          )
          (Written-put i p r (omega (arith, length-append {0})) (
            Written-put i fct r (omega (arith, length-append {0}))
              (Written-put i dq_fct_mark r (omega (arith, length-append {0})) w)))
    | inr a ↦
        rw (e, a, ← append_assoc ws (set_fct_bit fct ∷ []) (p ∷ []))
          (Written-put i p r (omega (arith, length-append {0}))
            (Written-put i (set_fct_bit fct) r (omega (arith, length-append {0})) w))
  ]
  | inr e ↦ rw e (Written-put i p r (omega arith) w)
]

-- `encode` appends one callback, in three words at most.
encode-Holds :
    (fct p : ℕ) (d : Queue) {ws : List ℕ} {cs : List Callback}
    → Holds d ws cs
    → length ws + 3 ≤ defer_queue_size
    → Holds (encode fct p d) (ws ++ words d.last_fct_in fct p) (cs ++ (fct, p) ∷ [])
unfolding encode
encode-Holds fct p d {ws} h k =
    let w =
      Written-put_item d.tail d.last_fct_in fct p h.in_range k
        (record { segment = h.segment; head_at = h.head_at }) in
    record {
      in_range = h.in_range;
      segment = w.segment;
      head_at = w.head_at;
      fits = omega (
        arith,
        length-append {0} ws (words d.last_fct_in fct p),
        length-words d.last_fct_in fct p,
      );
      encodes = Encodes-append h.encodes (words-Encodes d.last_fct_in fct p);
    }

-- the calls of some callbacks, behind a grace period if there are any
abbrev pub reclaim : List Callback → List Act
reclaim [] = []
reclaim (c ∷ cs) = synchronize_rcu ∷ map call (c ∷ cs)

-- `rcu_defer_barrier_thread` calls everything that is queued, in order, behind a grace period, and
-- leaves the queue empty. On an empty queue it does nothing.
pub barrier-reclaim :
    (d : Queue) (ws : List ℕ) (cs : List Callback)
    → Holds d ws cs
    → (d' : Queue) × (rcu_defer_barrier_thread d ≡ some (reclaim cs, d'))
      × Holds d' [] []
      × (d'.head ≡ d.head)
unfolding rcu_defer_barrier_thread
barrier-reclaim d [] cs h =
    let (none_left, same) = Encodes-nil h.encodes refl in
    (d, rw (used-Holds h, none_left), rw none_left at h, refl)
barrier-reclaim d (w ∷ ws) [] h = absurd (cons≢nil (Encodes-cons h.encodes refl))
barrier-reclaim d (w ∷ ws) (c ∷ cs) h =
    let (d', run, empty, same) =
      rcu_defer_barrier_queue-Holds d (w ∷ ws) [] h.in_range (rw append-nil h.segment)
        (rw append-nil h.head_at) (rw append-nil h.fits) h.encodes done in
    let all =
      subst (λ x. rcu_defer_barrier_queue d x ≡ some (map call (c ∷ cs), d')) (sym h.head_at) run in
    (d', ground (arith, used-Holds h, all), empty, same)

-- `_defer_rcu` while fewer than DEFER_QUEUE_SIZE - 2 words are used: the callback is appended to the
-- queue, nothing is called, and the queue holds DEFER_QUEUE_SIZE words at most.
pub defer_rcu-append :
    (c : Callback) (d : Queue) (ws : List ℕ) (cs : List Callback)
    → Holds d ws cs
    → length ws < defer_queue_size - 2
    → (d' : Queue) × (ws' : List ℕ) × (defer_rcu c d ≡ some ([], d')) × Holds d' ws' (cs ++ c ∷ [])
unfolding defer_rcu
defer_rcu-append (fct, p) d ws cs h k = (
  encode fct p d,
  ws ++ words d.last_fct_in fct p,
  ground (arith, used-Holds h),
  encode-Holds fct p d h (omega arith),
)

-- `_defer_rcu` from there on: the thread first reclaims everything that is queued, behind a grace
-- period; no assertion fails, and the queue then holds the new callback alone.
pub defer_rcu-reclaim :
    (c : Callback) (d : Queue) (ws : List ℕ) (cs : List Callback)
    → Holds d ws cs
    → defer_queue_size - 2 ≤ length ws
    → (d' : Queue) × (ws' : List ℕ) × (defer_rcu c d ≡ some (reclaim cs, d'))
      × Holds d' ws' (c ∷ [])
unfolding defer_rcu
defer_rcu-reclaim (fct, p) d ws cs h k =
    let (d', run, empty, same) = barrier-reclaim d ws cs h in
    (
      encode fct p d',
      words d'.last_fct_in fct p,
      ground (arith, used-Holds h, h.fits, run, same, empty.head_at, empty.in_range),
      encode-Holds fct p d' empty (omega arith),
    )
