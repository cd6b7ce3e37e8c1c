-- ===== src/Lfht/Chain/Lookup.antt =====
-- What `cds_lfht_lookup` of src/rculfhash.c finds, while other threads add, replace and delete.
use userspace_rcu.Prelude.{
  ℕ, ◌≡◌, ◌≢◌, ◌≤◌, ◌<◌, refl, true, false, List, [], ◌∷◌, arith, ◌==◌, has, ltb, not, ◌&&◌,
  Bool-cases, if-cases, inl, inr, ap, ◌∙◌, update,
}
use userspace_rcu.Lfht.Links.{Link, end}
use userspace_rcu.Lfht.Place.{
  Keys, Place, returned, missing, found, lookup_first, lookup_next, State,
}
use userspace_rcu.Lfht.Chain.{Event, call, access, step, go, lookup_look, lookup_read, is_resting}
use userspace_rcu.Lfht.Chain.Reach.{Reaches, Reaches-next, Reaches-end}
use userspace_rcu.Lfht.Chain.Chained.{Reaches-by_order}
use userspace_rcu.Lfht.Chain.Invariant.{order, Holds, At, Grows}
use userspace_rcu.Lfht.Chain.Reads.{Reaches-order}
use userspace_rcu.Lfht.Chain.Step.{linked_by, chained_by}
use userspace_rcu.Lfht.Chain.Go.{go-Steps}
use userspace_rcu.Lfht.Chain.Run.{linked, chained, run, Allowed, AllAllowed, all_linked, step-Steps}

-- the node is one that a lookup of the key looks for
abbrev pub IsSought : Keys → (t key hash : ℕ) → Type 0
IsSought k t key hash = (k.match t key ≡ true) × (k.reverse_hash t ≡ hash) × (k.in_table t ≡ false)

-- what a lookup of a key that began after `t` was added knows of it, and what it answers
abbrev pub Seeks : Keys → (t key hash : ℕ) → Place → (n : ℕ → Link) (xs : List ℕ) → Type 0
Seeks k t key hash (lookup_first key' hash' b) n xs =
    (key' ≡ key)
    × (hash' ≡ hash)
    × (has b xs ≡ true)
    × (k.in_table b ≡ true)
    × (k.reverse_hash b ≤ hash)
Seeks k t key hash (lookup_next key' hash' a) n xs =
    (key' ≡ key) × (hash' ≡ hash) × ((n t).removed ≡ false → Reaches n t a)
Seeks k t key hash (returned missing) n xs = (n t).removed ≡ true
Seeks k t key hash (returned (found node next)) n xs =
    (k.match node key ≡ true) × (k.reverse_hash node ≡ hash) × (next.removed ≡ false)
Seeks k t key hash _ n xs = false ≡ true

at_self : (w : ℕ → Place) (i : ℕ) (q : Place) → update w i q i ≡ q
at_self w i q = ground arith

module _ (k : Keys) (first t key hash : ℕ) (g : IsSought k t key hash) (s : State) (xs ys : List ℕ)
    (h : Holds k first s xs ys) (ht : has t xs ≡ true) where
  real : t ≢ end
  real = ground (arith, h.memory.real)

  look-Seeks :
      (a : ℕ)
      → (a ≢ end → has a xs ≡ true)
      → ((s.next t).removed ≡ false → Reaches s.next t a)
      → Seeks k t key hash (lookup_look k key hash a) s.next xs
  unfolding lookup_look
  look-Seeks a f r =
      if-cases (λ q. Seeks k t key hash q s.next xs) (a == end)
        (λ e.
          let at_end : a ≡ end = ground arith in
          elim (Bool-cases (s.next t).removed) [
            | inl d ↦ d
            | inr d ↦
                let stuck : true ≡ false = Reaches-end s.next t real (rw at_end at (r d)) in
                ground arith
          ])
        (λ e.
          if-cases (λ q. Seeks k t key hash q s.next xs) (ltb hash (k.reverse_hash a))
            (λ d. elim (Bool-cases (s.next t).removed) [
              | inl c ↦ c
              | inr c ↦
                  let up : order k a ≤ order k t =
                    Reaches-order k first s.next xs ys h.memory t a (f (ground arith)) real (r c) in
                  ground (arith, g)
            ])
            (λ d. (refl, refl, r)))

  passed_over :
      (node : ℕ)
      → (s.next t).removed ≡ false
      → (not (s.next node).removed
          && (not (s.next node).bucket && ((k.reverse_hash node == hash) && k.match node key)))
        ≡ false
      → node ≢ t
  passed_over node c d e =
      let m : k.match node key ≡ true = rw e g.0 in
      let f : (s.next node).removed ≡ false = rw e c in
      let b : (s.next node).bucket ≡ false = rw e (h.memory.flagged t ht ∙ g.2) in
      let r : k.reverse_hash node ≡ hash = rw e g.1 in ground arith

  read-Seeks :
      (node : ℕ)
      → (node ≢ end) × (has node xs ≡ true)
      → ((s.next t).removed ≡ false → Reaches s.next t node)
      → Seeks k t key hash (lookup_read k key hash node (s.next node)) s.next xs
  unfolding lookup_read
  read-Seeks node a r =
      if-cases (λ q. Seeks k t key hash q s.next xs)
        (not (s.next node).removed
          && (not (s.next node).bucket && ((k.reverse_hash node == hash) && k.match node key)))
        (λ d. ground arith)
        (λ d. look-Seeks (s.next node).to (h.memory.targets node) (λ c.
          let ne : node ≢ t = λ f. passed_over node c d f in Reaches-next s.next t node ne (r c)))

  go-Seeks :
      (i : ℕ) (q : Place)
      → At k q s.next xs ys
      → Seeks k t key hash q s.next xs
      → ((s.at i) ≡ q)
      → Seeks k t key hash ((go k i q s).at i) (go k i q s).next (linked_by q s xs)
  unfolding go
  go-Seeks i (lookup_first key' hash' b) a (kk, hh, hb, tb, o) e =
      let looked = look-Seeks (s.next b).to (h.memory.targets b) (λ c.
        let less : order k b < order k t = ground (arith, g) in
        let ne : b ≢ t = λ d. ground (arith, ap k.in_table d, g) in
        let inside : has b ys ≡ true = h.memory.kept b hb (h.memory.tables b hb tb) in
        Reaches-next s.next t b ne (
          Reaches-by_order s.next (order k) first b t ys h.memory.chain
            (λ d f. h.memory.sorted d (h.memory.within d f)) inside (h.memory.kept t ht c) less)) in
      rw (at_self, kk, hh) looked
  go-Seeks i (lookup_next key' hash' node) a (kk, hh, r) e =
      rw (at_self, kk, hh) (read-Seeks node a r)
  go-Seeks i (returned (found node next)) a f e = rw e f
  go-Seeks i (returned missing) a f e = rw e f
  go-Seeks i q a f e = ground arith

-- it outlives the steps of others
Seeks-kept :
    (k : Keys) (t key hash : ℕ) (q : Place) (n m : ℕ → Link) (xs ys xs' ys' : List ℕ)
    → Grows n xs ys m xs' ys'
    → ((m t).removed ≡ false → has t ys' ≡ true)
    → has t xs ≡ true
    → At k q n xs ys
    → Seeks k t key hash q n xs
    → Seeks k t key hash q m xs'
Seeks-kept k t key hash (lookup_first key' hash' b) n m xs ys xs' ys' w d ht a (e, f, hb, tb, o) =
    (e, f, w.more b hb, tb, o)
Seeks-kept k t key hash (lookup_next key' hash' c) n m xs ys xs' ys' w d ht (z, hc) (e, f, r) = (
  e,
  f,
  (λ c'.
      let before : (n t).removed ≡ false = ground (arith, w.stays t ht) in
      w.paths t c ht (d c') hc (r before)),
)
Seeks-kept k t key hash (returned missing) n m xs ys xs' ys' w d ht a f = w.stays t ht f
Seeks-kept k t key hash (returned (found node next)) n m xs ys xs' ys' w d ht a f = f
Seeks-kept k t key hash q n m xs ys xs' ys' w d ht a f = ground arith

-- nobody begins a call as the thread `i`
abbrev pub NoCall : (i : ℕ) → List Event → Type 0
NoCall i [] = true ≡ true
NoCall i (call j c ∷ es) = ((j == i) ≡ false) × NoCall i es
NoCall i (access j ∷ es) = NoCall i es

start : (i : ℕ) (e : Event) (es : List Event) → NoCall i (e ∷ es) → NoCall i (e ∷ [])
start i (call j c) es n = (n.0, refl)
start i (access j) es n = refl

rest : (i : ℕ) (e : Event) (es : List Event) → NoCall i (e ∷ es) → NoCall i es
rest i (call j c) es n = n.1
rest i (access j) es n = n

go-others :
    (k : Keys) (j i : ℕ) (q : Place) (s : State) → (j == i) ≡ false → (go k j q s).at i ≡ s.at i
unfolding go
go-others k j i q s d = ground arith

step-Seeks :
    (k : Keys) (first i t key hash : ℕ) (e : Event) (s : State) (xs ys : List ℕ)
    → IsSought k t key hash
    → Holds k first s xs ys
    → Allowed k e s xs
    → NoCall i (e ∷ [])
    → has t xs ≡ true
    → Seeks k t key hash (s.at i) s.next xs
    → Seeks k t key hash ((step k e s).at i) (step k e s).next (linked e s xs)
unfolding step
step-Seeks k first i t key hash (call j c) s xs ys g h a n ht f =
    if-cases (λ (u : State). Seeks k t key hash (u.at i) u.next xs) (is_resting (s.at j))
      (λ _. rw n.0 f) (λ _. f)
step-Seeks k first i t key hash (access j) s xs ys g h a n ht f =
    let u = go-Steps k first j s xs ys h in
    elim (Bool-cases (j == i)) [
      | inl d ↦
          let mine : j ≡ i = ground arith in
          rw mine (go-Seeks k first t key hash g s xs ys h ht i (s.at i) (h.places i) f refl)
      | inr d ↦ rw (go-others k j i (s.at j) s d) (
          Seeks-kept k t key hash (s.at i) s.next (go k j (s.at j) s).next xs ys
            (linked_by (s.at j) s xs) (chained_by (s.at j) s ys) u.1
            (u.0.memory.kept t (u.1.more t ht)) ht (h.places i) f)
    ]

-- A lookup that began after a matching node was added, from a bucket before it, answers that there is
-- no such node only if that node has been removed by then; and a node that it answers has the hash,
-- matches the key and was not removed when it read its word.
pub lookup-answers :
    (k : Keys) (first i t key hash : ℕ) (es : List Event) (s : State) (xs ys : List ℕ)
    → IsSought k t key hash
    → Holds k first s xs ys
    → AllAllowed k es s xs
    → NoCall i es
    → has t xs ≡ true
    → Seeks k t key hash (s.at i) s.next xs
    → Seeks k t key hash ((run k es s).at i) (run k es s).next (all_linked k es s xs)
unfolding run
lookup-answers k first i t key hash [] s xs ys g h a n ht f = f
lookup-answers k first i t key hash (e ∷ es) s xs ys g h (a, b) n ht f =
    let p = step-Steps k first s xs ys h e a in
    lookup-answers k first i t key hash es (step k e s) (linked e s xs) (chained e s ys) g p.0 b
      (rest i e es n) (p.1.more t ht)
      (step-Seeks k first i t key hash e s xs ys g h a (start i e es n) ht f)
