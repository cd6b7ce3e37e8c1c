-- ===== src/Lfht/Chain/Step.antt =====
-- Each access of src/rculfhash.c keeps what holds of the list.
use userspace_rcu.Prelude.{
  ℕ, ◌≡◌, ◌≢◌, ◌≤◌, ◌<◌, refl, true, false, List, ◌∷◌, arith, ◌==◌, has, update, remove,
  if◌then◌else◌, Bool-cases, inl, inr, sym, ap, ◌∙◌,
}
use userspace_rcu.Lfht.Links.{Link, end, same, keep_bucket}
use userspace_rcu.Lfht.Place.{
  Keys, Then, Place, add_insert, add_gc, gc_swap, replace_swap, State, move, swap,
}
use userspace_rcu.Lfht.Chain.Reach.{Reaches, Reaches-next}
use userspace_rcu.Lfht.Chain.Chained.{put_after, Reaches-by_order}
use userspace_rcu.Lfht.Chain.Invariant.{
  order, Linked, At, Private, private_node, Holds, Grows, Steps, victim, Unlinks,
}
use userspace_rcu.Lfht.Chain.Writes
use userspace_rcu.Lfht.Chain.Frame.{At-kept, places-kept, Private-same, Private-linked}
use userspace_rcu.Lfht.Chain.Reads.{KeepsNode}

-- the nodes that were ever linked, after an access
abbrev pub linked_by : Place → State → List ℕ → List ℕ
linked_by (add_insert m b node prev iter) s xs = if same (s.next prev) iter then node ∷ xs else xs
linked_by (replace_swap c b old old_next node) s xs =
    if same (s.next old) old_next then node ∷ xs else xs
linked_by _ s xs = xs

-- the nodes of the list, after an access
abbrev pub chained_by : Place → State → List ℕ → List ℕ
chained_by (add_insert m b node prev iter) s ys =
    if same (s.next prev) iter then put_after prev node ys else ys
chained_by (add_gc m b node prev iter next) s ys =
    if same (s.next prev) iter then remove iter.to ys else ys
chained_by (gc_swap c b node prev iter next) s ys =
    if same (s.next prev) iter then remove iter.to ys else ys
chained_by (replace_swap c b old old_next node) s ys =
    if same (s.next old) old_next then put_after old node ys else ys
chained_by _ s ys = ys

pub same-eq :
    (v w : Link)
    → same v w ≡ true
    → (v.to ≡ w.to) × (v.removed ≡ w.removed) × (v.bucket ≡ w.bucket) × (v.owner ≡ w.owner)
unfolding same
same-eq v w e = ground arith

pub Grows-same : (n : ℕ → Link) (xs ys : List ℕ) → Grows n xs ys n xs ys
Grows-same n xs ys = record {
  more = λ c e. e;
  fewer = λ c e f. f;
  stays = λ c e f. f;
  frozen = λ c e f. refl;
  won = λ c e f. f;
  paths = λ t a ht hy ha r. r;
}

module _ (k : Keys) (first i : ℕ) (s : State) (xs ys : List ℕ) (h : Holds k first s xs ys) where
  -- one thread writes a word and moves on
  pub write-Steps :
      (m : ℕ → Link) (xs' ys' : List ℕ) (q : Place)
      → Linked k first m xs' ys'
      → Grows s.next xs ys m xs' ys'
      → At k q m xs' ys'
      → Private (update s.at i q) xs'
      → Steps k first s xs ys (record s { next = m; at = update s.at i q }) xs' ys'
  write-Steps m xs' ys' q l g a p = (
    record {
      memory = l;
      places = places-kept k s.next xs ys m xs' ys' g s.at i q h.places a;
      private = p;
    },
    g,
  )

  -- one thread reads and moves on
  pub read-Steps :
      (q : Place)
      → At k q s.next xs ys
      → KeepsNode q (private_node (s.at i))
      → Steps k first s xs ys (move i q s) xs ys
  read-Steps q a p =
      write-Steps s.next xs ys q h.memory (Grows-same s.next xs ys) a
        (Private-same s.at i q xs h.private h.memory.real p)

  pub bucket-clean :
      (b node : ℕ)
      → (has b xs ≡ true) × (k.in_table b ≡ true) × (order k b ≤ order k node) × (b ≢ node)
      → (s.next b).removed ≡ false
  bucket-clean b node f = h.memory.tables b f.0 f.1

  -- the garbage collection starts before its victim
  pub bucket-Reaches :
      (c : Then) (b node : ℕ)
      → Unlinks k c b node s.next xs
      → has (victim c node) ys ≡ true
      → Reaches s.next (victim c node) (s.next b).to
  bucket-Reaches c b node u f =
      let inside : has b ys ≡ true = h.memory.kept b u.0.0 (bucket-clean b node u.0) in
      let ne : b ≢ victim c node = λ e. ground (arith, u.0.1, u.1.2, ap k.in_table e) in
      let less : order k b < order k (victim c node) = ground (arith, u.0.1, u.0.2, u.1.2, u.2) in
      Reaches-next s.next (victim c node) b ne (
        Reaches-by_order s.next (order k) first b (victim c node) ys h.memory.chain
          (λ c e. h.memory.sorted c (h.memory.within c e)) inside f less)

  -- a removed node is taken out of the list
  module _ (prev : ℕ) (iter next : Link) (q : Place) (hp : has prev xs ≡ true)
      (clean : iter.removed ≡ false) (z : iter.to ≢ end) (hi : has iter.to xs ≡ true)
      (r : (s.next iter.to).removed ≡ true) (e : (s.next iter.to).to ≡ next.to)
      (a : At k q s.next xs ys) (p : KeepsNode q (private_node (s.at i))) where
    skip-word :
        ((keep_bucket iter next.to).to ≡ next.to)
        × ((keep_bucket iter next.to).removed ≡ false)
        × ((keep_bucket iter next.to).owner ≡ false)
        × ((keep_bucket iter next.to).bucket ≡ iter.bucket)
    skip-word = ground arith

    pub skip-Steps :
        Steps k first s xs ys
          (swap i prev iter (keep_bucket iter next.to) q q s)
          xs
          (if same (s.next prev) iter then remove iter.to ys else ys)
    skip-Steps = elim (Bool-cases (same (s.next prev) iter)) [
      | inl f ↦
          let w = same-eq (s.next prev) iter f in
          let c : (s.next prev).removed ≡ false = w.1 ∙ clean in
          let b : (keep_bucket iter next.to).bucket ≡ k.in_table prev =
            skip-word.3 ∙ (sym w.2 ∙ h.memory.flagged prev hp) in
          let l =
            Writes.skip-Linked k first s.next xs ys h.memory prev iter.to (keep_bucket iter next.to)
              hp c w.0 z r (skip-word.0 ∙ sym e) skip-word.1 skip-word.2 b in
          let g =
            Writes.skip-Grows k first s.next xs ys h.memory prev iter.to (keep_bucket iter next.to)
              hp c w.0 z r (skip-word.0 ∙ sym e) skip-word.1 skip-word.2 b in
          rw f (
            write-Steps (update s.next prev (keep_bucket iter next.to)) xs (remove iter.to ys) q l g
              (At-kept k s.next xs ys (update s.next prev (keep_bucket iter next.to)) xs
                (remove iter.to ys) g q a)
              (Private-same s.at i q xs h.private h.memory.real p))
      | inr f ↦ rw f (read-Steps q a p)
    ]

  -- a node is put into the list, or the word that was expected has changed
  module _ (p x : ℕ) (old v w : Link) (y z : Place) (hp : has p xs ≡ true)
      (clean : old.removed ≡ false) (mine : private_node (s.at i) ≡ x) (real : x ≢ end)
      (v_to : v.to ≡ old.to) (v_removed : v.removed ≡ false)
      (v_owner : same (s.next p) old ≡ true → v.owner ≡ false)
      (v_bucket : same (s.next p) old ≡ true → v.bucket ≡ k.in_table x) (w_to : w.to ≡ x)
      (w_bucket : same (s.next p) old ≡ true → w.bucket ≡ old.bucket)
      (w_owner : w.owner ≡ true → w.removed ≡ true)
      (w_table : k.in_table p ≡ true → w.removed ≡ false) (below : order k p ≤ order k x)
      (target : old.to ≢ end → has old.to xs ≡ true)
      (above : same (s.next p) old ≡ true → old.to ≢ end → order k x ≤ order k old.to)
      (at_y : At k y (update (update s.next x v) p w) (x ∷ xs) (put_after p x ys))
      (no_node : private_node y ≡ end) (at_z : At k z s.next xs ys) (keeps : KeepsNode z x) where
    fresh : has x xs ≡ false
    fresh = rw (← mine) (h.private.0 i)

    apart : (x == p) ≡ false
    apart = ground (arith, fresh)

    pub put-Steps :
        Steps k first s xs ys
          (swap i p old w y z (record s { next = update s.next x v }))
          (if same (s.next p) old then x ∷ xs else xs)
          (if same (s.next p) old then put_after p x ys else ys)
    put-Steps = elim (Bool-cases (same (s.next p) old)) [
      | inl f ↦
          let e = same-eq (s.next p) old f in
          let c : (s.next p).removed ≡ false = e.1 ∙ clean in
          let b : w.bucket ≡ k.in_table p = w_bucket f ∙ (sym e.2 ∙ h.memory.flagged p hp) in
          let up : (s.next p).to ≢ end → order k x ≤ order k (s.next p).to =
            λ t. rw e.0 (above f (λ d. t (e.0 ∙ d))) in
          let l =
            Writes.put-Linked k first s.next xs ys h.memory p x v w hp c fresh real (v_to ∙ sym e.0)
              w_to v_removed (v_owner f) (v_bucket f) b w_owner w_table below up in
          let g =
            Writes.put-Grows k first s.next xs ys h.memory p x v w hp c fresh real (v_to ∙ sym e.0)
              w_to v_removed (v_owner f) (v_bucket f) b w_owner w_table below up in
          rw apart (
            rw f (
              write-Steps (update (update s.next x v) p w) (x ∷ xs) (put_after p x ys) y l g at_y
                (Private-linked s.at i y xs h.private h.memory.real x mine no_node real)))
      | inr f ↦
          let t : v.to ≢ end → has v.to xs ≡ true = λ d. rw v_to (target (λ c. d (v_to ∙ c))) in
          let l = Writes.own-Linked k first s.next xs ys h.memory x v fresh real t in
          let g = Writes.own-Grows k first s.next xs ys h.memory x v fresh real t in
          rw apart (
            rw f (
              write-Steps (update s.next x v) xs ys z l g
                (At-kept k s.next xs ys (update s.next x v) xs ys g z at_z)
                (Private-same s.at i z xs h.private h.memory.real (rw mine keeps))))
    ]
