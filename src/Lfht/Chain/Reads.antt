-- ===== src/Lfht/Chain/Reads.antt =====
-- What a thread knows after a load in the loops of src/rculfhash.c.
use userspace_rcu.Prelude.{
  ℕ, ◌≡◌, ◌≢◌, ◌≤◌, refl, Bool, true, false, List, arith, ◌==◌, has, ltb, ◌&&◌, not, if◌then◌else◌,
  Bool-cases, if-cases, inl, inr, sym, ap, ◌∙◌,
}
use userspace_rcu.Lfht.Links.{Link, end}
use userspace_rcu.Lfht.Place.{
  Keys, Mode, duplicates, unique, replacing, table, Then, own, return_replaced, Caller, by_replace,
  by_add_replace, Place, add_next, add_duplicate, gc_next, is_table, is_unique, key_of, lookup_next,
}
use userspace_rcu.Lfht.Chain.{
  add_look, add_read, duplicate_look, duplicate_read, found_duplicate, replace_look, replace_failed,
  gc_look, gc_read, after_gc, lookup_look, lookup_read,
}
use userspace_rcu.Lfht.Chain.Reach.{Reaches, here, there, Reaches-end, Reaches-next}
use userspace_rcu.Lfht.Chain.Invariant.{
  order, Linked, IsBucket, Adds, Unlinks, victim, At, private_node, IsVictim,
}

unique_not_table : (m : Mode) (b : Bool) → (is_unique m && b) ≡ true → is_table m ≡ false
unique_not_table duplicates b e = refl
unique_not_table (unique key) b e = refl
unique_not_table (replacing key) b e = refl
unique_not_table table b e = ground arith

module _ (k : Keys) (first : ℕ) (n : ℕ → Link) (xs ys : List ℕ) (h : Linked k first n xs ys) where
  module _ (m : Mode) (b node prev : ℕ) (a : Adds k m b node xs) (hp : has prev xs ≡ true) where
    pub add_look-At :
        (iter : Link)
        → iter.removed ≡ false
        → order k prev ≤ order k node
        → (iter.to ≢ end → has iter.to xs ≡ true)
        → At k (add_look k m b node prev iter) n xs ys
          × (private_node (add_look k m b node prev iter) ≡ node)
    unfolding add_look
    add_look-At iter c o f = ground arith

    pub duplicate_look-At :
        (iter : Link) (d : ℕ)
        → iter.removed ≡ false
        → order k prev ≤ order k node
        → (iter.to ≢ end → (has iter.to xs ≡ true) × (order k node ≤ order k iter.to))
        → (d ≢ end → (has d xs ≡ true) × (order k node ≤ order k d))
        → is_table m ≡ false
        → At k (duplicate_look k m b node prev iter d) n xs ys
          × (private_node (duplicate_look k m b node prev iter d) ≡ node)
    unfolding duplicate_look
    duplicate_look-At iter d c o f g t = ground arith

  module _ (m : Mode) (b node prev : ℕ) (a : Adds k m b node xs) (hp : has prev xs ≡ true) where
    pub add_read-At :
        (iter : Link)
        → At k (add_next m b node prev iter) n xs ys
        → At k (add_read k m b node prev iter (n iter.to)) n xs ys
          × (private_node (add_read k m b node prev iter (n iter.to)) ≡ node)
    unfolding add_read
    add_read-At iter (_, (_, c), o, z, hi, oi) =
        let test =
          is_unique m
          && (not (n iter.to).bucket && (k.reverse_hash iter.to == k.reverse_hash node)) in
        if-cases (λ q. At k q n xs ys × (private_node q ≡ node)) (n iter.to).removed
          (λ e. ((a, (hp, c), (z, hi, e, refl)), refl))
          (λ e.
            if-cases (λ q. At k q n xs ys × (private_node q ≡ node)) test
              (λ f.
                let up : order k node ≤ order k iter.to = ground (arith, h.flagged iter.to) in
                let t : is_table m ≡ false =
                  unique_not_table m
                    (not (n iter.to).bucket && (k.reverse_hash iter.to == k.reverse_hash node)) f in
                duplicate_look-At m b node prev a hp iter iter.to c o (λ _. (hi, up))
                  (λ _. (hi, up)) t)
              (λ f. add_look-At m b node iter.to a hi (n iter.to) e oi (h.targets iter.to)))

-- the thread keeps its node, if it still has one
abbrev pub KeepsNode : Place → (node : ℕ) → Type 0
KeepsNode q node = (private_node q == end) ≡ false → private_node q ≡ node

module _ (k : Keys) (first : ℕ) (n : ℕ → Link) (xs ys : List ℕ) (h : Linked k first n xs ys) where
  replace_failed-At :
      (c : Caller) (b node : ℕ)
      → IsBucket k b node xs
      → node ≢ end
      → k.in_table node ≡ false
      → At k (replace_failed c b node) n xs ys × KeepsNode (replace_failed c b node) node
  unfolding replace_failed
  replace_failed-At by_replace b node ib z tn = (refl, ground arith)
  replace_failed-At (by_add_replace key) b node ib z tn = ((ib, sym tn, z), λ _. refl)

  pub replace_look-At :
      (c : Caller) (b old node : ℕ)
      → IsBucket k b node xs
      → node ≢ end
      → k.in_table node ≡ false
      → has old xs ≡ true
      → k.in_table old ≡ false
      → order k old ≡ order k node
      → At k (replace_look c b old (n old) node) n xs ys
        × KeepsNode (replace_look c b old (n old) node) node
  unfolding replace_look
  replace_look-At c b old node ib z tn ho to o =
      if-cases (λ q. At k q n xs ys × KeepsNode q node) (n old).removed
        (λ e. replace_failed-At c b node ib z tn)
        (λ e.
          let target : (if (n old).to == end then true else has (n old).to xs) ≡ true =
            ground (arith, h.targets old) in
          ((ib, z, tn, ho, to, o, e, target), λ _. refl))

  found_duplicate-At :
      (m : Mode) (b node d : ℕ)
      → Adds k m b node xs
      → is_table m ≡ false
      → has d xs ≡ true
      → order k d ≡ order k node
      → k.in_table d ≡ false
      → At k (found_duplicate m b node d (n d)) n xs ys
        × KeepsNode (found_duplicate m b node d (n d)) node
  unfolding found_duplicate
  found_duplicate-At duplicates b node d a t hd o td = (refl, ground arith)
  found_duplicate-At (unique key) b node d a t hd o td = (refl, ground arith)
  found_duplicate-At (replacing key) b node d a t hd o td =
      replace_look-At (by_add_replace key) b d node a.0 a.2 (sym a.1 ∙ t) hd td o
  found_duplicate-At table b node d a t hd o td = (refl, ground arith)

  pub duplicate_read-At :
      (m : Mode) (b node prev : ℕ) (iter : Link) (d : ℕ)
      → At k (add_duplicate m b node prev iter d) n xs ys
      → At k (duplicate_read k m b node prev iter d (n d)) n xs ys
        × KeepsNode (duplicate_read k m b node prev iter d (n d)) node
  unfolding duplicate_read
  duplicate_read-At m b node prev iter d (a, (hp, c), (o, f), z, hd, od, ld, t) =
      if-cases (λ q. At k q n xs ys × KeepsNode q node)
        (not (n d).removed && (not (n d).bucket && k.match d (key_of m)))
        (λ e.
          let td : k.in_table d ≡ false = ground (arith, h.flagged d) in
          let tn : k.in_table node ≡ false = sym a.1 ∙ t in
          found_duplicate-At m b node d a t hd (ground arith) td)
        (λ e.
          let p =
            duplicate_look-At k first n xs ys h m b node prev a hp iter (n d).to c o (ground arith)
              (λ g. (h.targets d g, omega (arith, h.sorted d hd g))) t in
          (p.0, λ _. p.1))

  pub Reaches-order : (t a : ℕ) → has a xs ≡ true → t ≢ end → Reaches n t a → order k a ≤ order k t
  Reaches-order t a ha z (here e) = omega (arith, ap (order k) e)
  Reaches-order t a ha z (there y r) = elim (Bool-cases ((n a).to == end)) [
    | inl e ↦
        let at_end : (n a).to ≡ end = ground arith in
        let stuck : true ≡ false = Reaches-end n t z (rw at_end at r) in ground arith
    | inr e ↦
        let w : (n a).to ≢ end = ground arith in
        omega (arith, h.sorted a ha w, Reaches-order t (n a).to (h.targets a w) z r)
  ]

  after_gc-At :
      (c : Then) (node : ℕ)
      → IsVictim k (victim c node) n xs
      → has (victim c node) ys ≡ false
      → At k (after_gc c node) n xs ys × (private_node (after_gc c node) ≡ end)
  unfolding after_gc
  after_gc-At own node v f = ((v, f), refl)
  after_gc-At (return_replaced by_replace old) node v f = (refl, refl)
  after_gc-At (return_replaced (by_add_replace key) old) node v f = (refl, refl)

  module _ (c : Then) (b node : ℕ) (u : Unlinks k c b node n xs) where
    victim-ne : victim c node ≢ end
    victim-ne = ground (arith, h.real, u.1.0)

    pub differ : (a : ℕ) → (n a).removed ≡ false → a ≢ victim c node
    differ a g e =
        let f : true ≡ false = sym u.1.1 ∙ (ap (λ d. (n d).removed) (sym e) ∙ g) in ground arith

    -- the loop of `_cds_lfht_gc_bucket` has come to its end
    pub passed-unlinked :
        (a : ℕ)
        → (a ≢ end → has a xs ≡ true)
        → (has (victim c node) ys ≡ true → Reaches n (victim c node) a)
        → ((if a == end then true else ltb (k.reverse_hash node) (k.reverse_hash a)) ≡ true)
        → has (victim c node) ys ≡ false
    passed-unlinked a f r e = elim (Bool-cases (has (victim c node) ys)) [
      | inr g ↦ g
      | inl g ↦ elim (Bool-cases (a == end)) [
        | inl d ↦
            let at_end : a ≡ end = ground arith in
            let stuck : true ≡ false =
              Reaches-end n (victim c node) victim-ne (rw at_end at (r g)) in
            ground arith
        | inr d ↦
            let ha : has a xs ≡ true = f (ground arith) in
            let up : order k a ≤ order k (victim c node) =
              Reaches-order (victim c node) a ha victim-ne (r g) in
            ground (arith, u.2, u.1.2)
      ]
    ]

    pub gc_look-At :
        (prev : ℕ) (iter : Link)
        → has prev xs ≡ true
        → iter.removed ≡ false
        → (iter.to ≢ end → has iter.to xs ≡ true)
        → (has (victim c node) ys ≡ true → Reaches n (victim c node) iter.to)
        → At k (gc_look k c b node prev iter) n xs ys
          × (private_node (gc_look k c b node prev iter) ≡ end)
    unfolding gc_look
    gc_look-At prev iter hp e f r =
        if-cases (λ q. At k q n xs ys × (private_node q ≡ end)) (iter.to == end)
          (λ g. after_gc-At c node u.1 (passed-unlinked iter.to f r (rw g refl)))
          (λ g.
            if-cases (λ q. At k q n xs ys × (private_node q ≡ end))
              (ltb (k.reverse_hash node) (k.reverse_hash iter.to))
              (λ d. after_gc-At c node u.1 (passed-unlinked iter.to f r (rw (g, d) refl)))
              (λ d. let z : iter.to ≢ end = ground arith in ((u, (hp, e), z, f z, r), refl)))

    pub gc_read-At :
        (prev : ℕ) (iter : Link)
        → At k (gc_next c b node prev iter) n xs ys
        → At k (gc_read k c b node prev iter (n iter.to)) n xs ys
          × (private_node (gc_read k c b node prev iter (n iter.to)) ≡ end)
    unfolding gc_read
    gc_read-At prev iter (_, (hp, e), z, hi, r) =
        if-cases (λ q. At k q n xs ys × (private_node q ≡ end)) (n iter.to).removed
          (λ g. ((u, (hp, e), (z, hi, g, refl)), refl))
          (λ g.
            let d : iter.to ≢ victim c node = differ iter.to g in
            gc_look-At iter.to (n iter.to) hi g (h.targets iter.to)
              (λ v. Reaches-next n (victim c node) iter.to d (r v)))

  pub lookup_look-At :
      (key hash a : ℕ)
      → (a ≢ end → has a xs ≡ true)
      → At k (lookup_look k key hash a) n xs ys × (private_node (lookup_look k key hash a) ≡ end)
  unfolding lookup_look
  lookup_look-At key hash a f = ground arith

  pub lookup_read-At :
      (key hash a : ℕ)
      → At k (lookup_next key hash a) n xs ys
      → At k (lookup_read k key hash a (n a)) n xs ys
        × (private_node (lookup_read k key hash a (n a)) ≡ end)
  unfolding lookup_read
  lookup_read-At key hash a (z, ha) =
      if-cases (λ q. At k q n xs ys × (private_node q ≡ end))
        (not (n a).removed && (not (n a).bucket && ((k.reverse_hash a == hash) && k.match a key)))
        (λ e. (refl, refl)) (λ e. lookup_look-At key hash (n a).to (h.targets a))
