-- ===== src/Lfht/Chain/Frame.antt =====
-- What a thread knows of the list of src/rculfhash.c outlives the accesses of the others.
use userspace_rcu.Prelude.{
  ℕ, ◌≡◌, ◌≢◌, refl, true, false, List, ◌∷◌, arith, ◌==◌, has, update, ◌∙◌, if◌then◌else◌,
  Bool-cases, inl, inr, sym,
}
use userspace_rcu.Lfht.Links.{Link, end}
use userspace_rcu.Lfht.Place.{
  Keys, Mode, Then, Place, returned, add_first, add_next, add_duplicate, add_insert, add_gc,
  gc_first, gc_next, gc_swap, del_load, del_flag, del_own_load, del_own, replace_swap, lookup_first,
  lookup_next,
}
use userspace_rcu.Lfht.Chain.Invariant.{
  Adds, Prev, Fits, Removed, IsVictim, Unlinks, victim, At, Private, private_node, Grows,
}

module _ (k : Keys) (n : ℕ → Link) (xs ys : List ℕ) (m : ℕ → Link) (xs' ys' : List ℕ)
    (g : Grows n xs ys m xs' ys') where
  Adds-kept : (md : Mode) (b node : ℕ) → Adds k md b node xs → Adds k md b node xs'
  Adds-kept md b node ((h, t, o, d), e, z) = ((g.more b h, t, o, d), e, z)

  Prev-kept : (p : ℕ) (iter : Link) → Prev p iter xs → Prev p iter xs'
  Prev-kept p iter (h, e) = (g.more p h, e)

  Fits-kept : (node p : ℕ) (iter : Link) → Fits k node p iter xs → Fits k node p iter xs'
  Fits-kept node p iter (o, e) = (o, ground (arith, g.more iter.to))

  Removed-kept : (iter next : Link) → Removed iter next n xs → Removed iter next m xs'
  Removed-kept iter next (z, h, r, e) =
      (z, g.more iter.to h, g.stays iter.to h r, g.frozen iter.to h r ∙ e)

  IsVictim-kept : (v : ℕ) → IsVictim k v n xs → IsVictim k v m xs'
  IsVictim-kept v (h, r, t) = (g.more v h, g.stays v h r, t)

  Unlinks-kept : (c : Then) (b node : ℕ) → Unlinks k c b node n xs → Unlinks k c b node m xs'
  Unlinks-kept c b node ((h, t, o, d), v, e) =
      ((g.more b h, t, o, d), IsVictim-kept (victim c node) v, e)

  pub At-kept : (q : Place) → At k q n xs ys → At k q m xs' ys'
  At-kept (returned a) f = refl
  At-kept (add_first md b node) f = Adds-kept md b node f
  At-kept (add_next md b node prev iter) (a, p, o, z, h, l) =
      (Adds-kept md b node a, Prev-kept prev iter p, o, z, g.more iter.to h, l)
  At-kept (add_duplicate md b node prev iter d) (a, p, f, z, h, o, l, t) = (
    Adds-kept md b node a,
    Prev-kept prev iter p,
    Fits-kept node prev iter f,
    z,
    g.more d h,
    o,
    l,
    t,
  )
  At-kept (add_insert md b node prev iter) (a, p, f) =
      (Adds-kept md b node a, Prev-kept prev iter p, Fits-kept node prev iter f)
  At-kept (add_gc md b node prev iter next) (a, p, r) =
      (Adds-kept md b node a, Prev-kept prev iter p, Removed-kept iter next r)
  At-kept (gc_first c b node) u = Unlinks-kept c b node u
  At-kept (gc_next c b node prev iter) (u, p, z, h, r) = (
    Unlinks-kept c b node u,
    Prev-kept prev iter p,
    z,
    g.more iter.to h,
    (λ e.
        let before : has (victim c node) ys ≡ true =
          ground (arith, g.fewer (victim c node) u.1.0) in
        g.paths (victim c node) iter.to u.1.0 e h (r before)),
  )
  At-kept (gc_swap c b node prev iter next) (u, p, r) =
      (Unlinks-kept c b node u, Prev-kept prev iter p, Removed-kept iter next r)
  At-kept (del_load b node) ((h, a, o, d), l, t) = ((g.more b h, a, o, d), g.more node l, t)
  At-kept (del_flag b node) ((h, a, o, d), l, t) = ((g.more b h, a, o, d), g.more node l, t)
  At-kept (del_own_load node) (v, f) = (IsVictim-kept node v, g.fewer node v.0 f)
  At-kept (del_own node next) (v, f, e, o, a, b) =
      (IsVictim-kept node v, g.fewer node v.0 f, e ∙ sym (g.frozen node v.0 v.1), o, a, b)
  At-kept (replace_swap c b old old_next node) ((h, a, o, d), z, t, l, e, f, u, v) =
      ((g.more b h, a, o, d), z, t, g.more old l, e, f, u, ground (arith, g.more old_next.to))
  At-kept (lookup_first key h b) f = g.more b f
  At-kept (lookup_next key h node) (z, f) = (z, g.more node f)

  -- all places, where one thread moves
  pub places-kept :
      (w : ℕ → Place) (i : ℕ) (q : Place)
      → ((j : ℕ) → At k (w j) n xs ys)
      → At k q m xs' ys'
      → (j : ℕ) → At k (update w i q j) m xs' ys'
  places-kept w i q f a j = elim (Bool-cases (i == j)) [
    | inl e ↦ rw e a
    | inr e ↦ rw e (At-kept (w j) (f j))
  ]

pub private-update :
    (w : ℕ → Place) (i : ℕ) (q : Place) (j : ℕ)
    → private_node (update w i q j) ≡ (if i == j then private_node q else private_node (w j))
private-update w i q j = elim (Bool-cases (i == j)) [ inl e ↦ rw e refl | inr e ↦ rw e refl ]

module _ (w : ℕ → Place) (i : ℕ) (q : Place) (xs : List ℕ) (p : Private w xs)
    (real : has end xs ≡ false) where
  -- a thread keeps its node, or has none any more
  pub Private-same :
      ((private_node q == end) ≡ false → private_node q ≡ private_node (w i))
      → Private (update w i q) xs
  Private-same e = (
    (λ j. ground (arith, private-update w i q j, p.0 i, p.0 j)),
    (λ j l.
        ground (arith, private-update w i q j, private-update w i q l, p.1 j l, p.1 j i, p.1 i l)),
  )

  -- its node is linked
  pub Private-linked :
      (node : ℕ)
      → private_node (w i) ≡ node
      → private_node q ≡ end
      → node ≢ end
      → Private (update w i q) (node ∷ xs)
  Private-linked node a e z = (
    (λ j. ground (arith, private-update w i q j, p.0 j, p.1 i j, p.1 j i)),
    (λ j l. ground (arith, private-update w i q j, private-update w i q l, p.1 j l)),
  )

  -- it brings a node
  pub Private-brought :
      has (private_node q) xs ≡ false
      → ((j : ℕ) → private_node (w j) ≡ private_node q → private_node q ≡ end)
      → Private (update w i q) xs
  Private-brought o f = (
    (λ j. ground (arith, private-update w i q j, p.0 j)),
    (λ j l. ground (arith, private-update w i q j, private-update w i q l, p.1 j l, f j, f l)),
  )
