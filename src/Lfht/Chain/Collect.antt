-- ===== src/Lfht/Chain/Collect.antt =====
-- When the garbage collection of src/rculfhash.c has passed, no new reader comes to the node.
use userspace_rcu.Prelude.{
  ℕ, ◌≡◌, ◌≢◌, Bool, true, false, List, [], ◌∷◌, arith, has, Bool-cases, if-cases, inl, inr, update,
}
use userspace_rcu.Lfht.Links.{Link, end, same}
use userspace_rcu.Lfht.Place.{Keys, Then, Place, gc_first, gc_next, gc_swap, State}
use userspace_rcu.Lfht.Chain.{Event, access, step, go, gc_look, gc_read}
use userspace_rcu.Lfht.Chain.Reach.{Reaches, Reaches-next}
use userspace_rcu.Lfht.Chain.Invariant.{Holds, At, victim, Unlinks}
use userspace_rcu.Lfht.Chain.Reads.{passed-unlinked, differ}
use userspace_rcu.Lfht.Chain.Step.{bucket-Reaches}
use userspace_rcu.Lfht.Chain.Run.{linked, chained, AllAllowed, all_chained, step-Steps}

-- a thread in `_cds_lfht_gc_bucket`, and the node whose removal it makes good
abbrev pub is_collecting : Place → Bool
is_collecting (gc_first c b node) = true
is_collecting (gc_next c b node prev iter) = true
is_collecting (gc_swap c b node prev iter next) = true
is_collecting _ = false

abbrev pub collected : Place → ℕ
collected (gc_first c b node) = victim c node
collected (gc_next c b node prev iter) = victim c node
collected (gc_swap c b node prev iter next) = victim c node
collected _ = end

at_self : (w : ℕ → Place) (i : ℕ) (q : Place) → update w i q i ≡ q
at_self w i q = ground arith

module _ (k : Keys) (first : ℕ) (s : State) (xs ys : List ℕ) (h : Holds k first s xs ys) where
  look-unlinked :
      (c : Then) (b node prev : ℕ) (iter : Link)
      → Unlinks k c b node s.next xs
      → (iter.to ≢ end → has iter.to xs ≡ true)
      → (has (victim c node) ys ≡ true → Reaches s.next (victim c node) iter.to)
      → is_collecting (gc_look k c b node prev iter) ≡ false
      → has (victim c node) ys ≡ false
  unfolding gc_look
  look-unlinked c b node prev iter u f r e =
      passed-unlinked k first s.next xs ys h.memory c b node u iter.to f r (ground arith)

  read-unlinked :
      (c : Then) (b node prev : ℕ) (iter : Link)
      → At k (gc_next c b node prev iter) s.next xs ys
      → is_collecting (gc_read k c b node prev iter (s.next iter.to)) ≡ false
      → has (victim c node) ys ≡ false
  unfolding gc_read
  read-unlinked c b node prev iter (u, p, z, hi, r) =
      if-cases (λ q. is_collecting q ≡ false → has (victim c node) ys ≡ false)
        (s.next iter.to).removed (λ _ f. ground arith)
        (λ e.
          let d = differ k first s.next xs ys h.memory c b node u iter.to e in
          look-unlinked c b node iter.to (s.next iter.to) u (h.memory.targets iter.to)
            (λ v. Reaches-next s.next (victim c node) iter.to d (r v)))

  passes :
      (i : ℕ) (q : Place)
      → At k q s.next xs ys
      → is_collecting q ≡ true
      → is_collecting ((go k i q s).at i) ≡ false
      → has (collected q) ys ≡ false
  unfolding go
  passes i (gc_first c b node) u e f =
      look-unlinked c b node b (s.next b) u (h.memory.targets b)
        (bucket-Reaches k first i s xs ys h c b node u) (rw at_self at f)
  passes i (gc_next c b node prev iter) a e f = read-unlinked c b node prev iter a (rw at_self at f)
  passes i (gc_swap c b node prev iter next) a e f = elim (Bool-cases (same (s.next prev) iter)) [
    | inl d ↦ let g : true ≡ false = rw (d, at_self) at f in ground arith
    | inr d ↦ let g : true ≡ false = rw (d, at_self) at f in ground arith
  ]
  passes i q a e f = ground arith

collected-known :
    (k : Keys) (xs ys : List ℕ) (n : ℕ → Link) (q : Place)
    → At k q n xs ys
    → is_collecting q ≡ true
    → has (collected q) xs ≡ true
collected-known k xs ys n (gc_first c b node) a e = a.1.0
collected-known k xs ys n (gc_next c b node prev iter) a e = a.0.1.0
collected-known k xs ys n (gc_swap c b node prev iter next) a e = a.0.1.0
collected-known k xs ys n q a e = ground arith

still-unlinked :
    (k : Keys) (first : ℕ) (es : List Event) (s : State) (xs ys : List ℕ) (c : ℕ)
    → Holds k first s xs ys
    → AllAllowed k es s xs
    → has c xs ≡ true
    → has c ys ≡ false
    → has c (all_chained k es s ys) ≡ false
still-unlinked k first [] s xs ys c h a hx f = f
still-unlinked k first (e ∷ es) s xs ys c h (a, b) hx f =
    let p = step-Steps k first s xs ys h e a in
    still-unlinked k first es (step k e s) (linked e s xs) (chained e s ys) c p.0 b (p.1.more c hx)
      (p.1.fewer c hx f)

-- When the garbage collection of a deletion or a replacement returns, the links from the first
-- bucket do not lead to the node that it removes, and never will again, whatever other threads do.
pub collection-unlinks :
    (k : Keys) (first i : ℕ) (es : List Event) (s : State) (xs ys : List ℕ)
    → Holds k first s xs ys
    → AllAllowed k (access i ∷ es) s xs
    → is_collecting (s.at i) ≡ true
    → is_collecting ((step k (access i) s).at i) ≡ false
    → has (collected (s.at i)) (all_chained k (access i ∷ es) s ys) ≡ false
unfolding step
collection-unlinks k first i es s xs ys h a e f =
    still-unlinked k first (access i ∷ es) s xs ys (collected (s.at i)) h a
      (collected-known k xs ys s.next (s.at i) (h.places i) e)
      (passes k first s xs ys h i (s.at i) (h.places i) e f)
