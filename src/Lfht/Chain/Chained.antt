-- ===== src/Lfht/Chain/Chained.antt =====
-- The nodes that the words `next` of src/rculfhash.c lead through, in order, from one node to the end.
use userspace_rcu.Prelude.{
  ℕ, ◌≡◌, ◌≢◌, ◌≤◌, refl, true, false, List, [], ◌∷◌, arith, ◌==◌, has, update, remove, distinct,
  if◌then◌else◌, Bool-cases, inl, inr, sym, ap, ◌∙◌, ◌<◌,
}
use userspace_rcu.Lfht.Links.{Link, end}
use userspace_rcu.Lfht.Chain.Reach.{Reaches, here, there}

abbrev pub Chained : (n : ℕ → Link) (a : ℕ) (ys : List ℕ) → Type 0
Chained n a [] = a ≡ end
Chained n a (y ∷ ys) = (a ≡ y) × (y ≢ end) × Chained n (n y).to ys

unfoldable pub put_after : (p x : ℕ) → List ℕ → List ℕ
put_after p x [] = []
put_after p x (y ∷ ys) = let rest = put_after p x ys in if p == y then y ∷ x ∷ ys else y ∷ rest

pub has-put_after :
    (p x c : ℕ) (ys : List ℕ)
    → has p ys ≡ true
    → has c (put_after p x ys) ≡ (if c == x then true else has c ys)
unfolding put_after
has-put_after p x c [] h = ground arith
has-put_after p x c (y ∷ ys) h = ground (arith, has-put_after p x c ys)

pub distinct-put_after :
    (p x : ℕ) (ys : List ℕ)
    → has p ys ≡ true
    → has x ys ≡ false
    → distinct ys ≡ true
    → distinct (put_after p x ys) ≡ true
unfolding put_after
distinct-put_after p x [] h f d = d
distinct-put_after p x (y ∷ ys) h f d =
    ground (arith, distinct-put_after p x ys, has-put_after p x y ys)

pub distinct-remove :
    (q : ℕ) (ys : List ℕ)
    → distinct ys ≡ true
    → ((c : ℕ) → has c (remove q ys) ≡ (if c == q then false else has c ys))
      × (distinct (remove q ys) ≡ true)
unfolding remove
distinct-remove q [] d = ((λ c. ground arith), refl)
distinct-remove q (y ∷ ys) d =
    let rest = distinct-remove q ys (ground arith) in
    ((λ c. ground (arith, rest.0 c)), ground (arith, rest.0 y, rest.1))

pub Chained-frame :
    (n m : ℕ → Link) (a : ℕ) (ys : List ℕ)
    → Chained n a ys
    → ((c : ℕ) → has c ys ≡ true → (m c).to ≡ (n c).to)
    → Chained m a ys
Chained-frame n m a [] c f = c
Chained-frame n m a (y ∷ ys) (e, z, c) f =
    (e, z, rw (f y (ground arith)) (Chained-frame n m (n y).to ys c (λ k i. f k (ground arith))))

module _ (n : ℕ → Link) where
  pub Chained-Reaches : (a t : ℕ) (ys : List ℕ) → Chained n a ys → has t ys ≡ true → Reaches n t a
  Chained-Reaches a t [] c h = ground arith
  Chained-Reaches a t (y ∷ ys) (e, z, c) h = elim (Bool-cases (t == y)) [
    | inl q ↦ here (ground arith)
    | inr q ↦ there (ground arith) (rw e (Chained-Reaches (n y).to t ys c (ground arith)))
  ]

  -- a node `x` is put in after `p`
  pub Chained-insert :
      (a p x : ℕ) (v w : Link) (ys : List ℕ)
      → Chained n a ys
      → distinct ys ≡ true
      → has p ys ≡ true
      → has x ys ≡ false
      → x ≢ end
      → v.to ≡ (n p).to
      → w.to ≡ x
      → Chained (update (update n x v) p w) a (put_after p x ys)
  unfolding put_after
  Chained-insert a p x v w [] c d h f z ev ew = ground arith
  Chained-insert a p x v w (y ∷ ys) (e, zy, c) d h f z ev ew = elim (Bool-cases (p == y)) [
    | inl q ↦
        let at_p : p ≡ y = ground arith in
        let one : ((update (update n x v) p w) y).to ≡ x = ground arith in
        let two : ((update (update n x v) p w) x).to ≡ (n y).to =
          ground (arith, ap (λ c. (n c).to) at_p) in
        let rest : Chained (update (update n x v) p w) (n y).to ys =
          Chained-frame n (update (update n x v) p w) (n y).to ys c (ground arith) in
        rw q (e, zy, (one, z, rw two rest))
    | inr q ↦
        let one : ((update (update n x v) p w) y).to ≡ (n y).to = ground arith in
        rw q (
          e,
          zy,
          rw one (
              Chained-insert (n y).to p x v w ys c (ground arith) (ground arith) (ground arith) z ev
                ew),
        )
  ]

  -- the links of a chain do not lead back to its first node
  pub Chained-next :
      (a p y : ℕ) (ys : List ℕ)
      → Chained n a (y ∷ ys)
      → has p (y ∷ ys) ≡ true
      → ((if (n p).to == end then true else has (n p).to ys) ≡ true)
  Chained-next a p y [] (e, zy, c) h =
      let at_p : p ≡ y = ground arith in ground (arith, ap (λ c. (n c).to) at_p)
  Chained-next a p y (x ∷ ys) (e, zy, c) h = elim (Bool-cases (p == y)) [
    | inl r ↦ let at_p : p ≡ y = ground arith in ground (arith, ap (λ c. (n c).to) at_p, c.0)
    | inr r ↦ ground (arith, Chained-next (n y).to p x ys c)
  ]

  remove-missing : (q : ℕ) (ys : List ℕ) → has q ys ≡ false → remove q ys ≡ ys
  unfolding remove
  remove-missing q [] h = refl
  remove-missing q (y ∷ ys) h = ground (arith, remove-missing q ys)

  -- the node `q` after `p` is taken out
  pub Chained-skip :
      (a p q : ℕ) (w : Link) (ys : List ℕ)
      → Chained n a ys
      → distinct ys ≡ true
      → has p ys ≡ true
      → (n p).to ≡ q
      → q ≢ end
      → w.to ≡ (n q).to
      → Chained (update n p w) a (remove q ys)
  unfolding remove
  Chained-skip a p q w [] c d h e z ew = c
  Chained-skip a p q w (y ∷ []) (ea, zy, c) d h e z ew =
      let at_p : p ≡ y = ground arith in ground (arith, ap (λ c. (n c).to) at_p)
  Chained-skip a p q w (y ∷ x ∷ ys) (ea, zy, c) d h e z ew =
      let later = Chained-next a p y (x ∷ ys) (ea, zy, c) h in
      let other : (q == y) ≡ false = ground arith in
      elim (Bool-cases (p == y)) [
        | inl r ↦
            let at_p : p ≡ y = ground arith in
            let eq : q ≡ x = ground (arith, ap (λ c. (n c).to) at_p, c.0) in
            let same_q : (q == x) ≡ true = ground arith in
            let gone : remove q ys ≡ ys = remove-missing q ys (ground arith) in
            let one : (update n p w y).to ≡ (n x).to = ground (arith, ap (λ c. (n c).to) eq) in
            let rest : Chained (update n p w) (n x).to ys =
              Chained-frame n (update n p w) (n x).to ys c.2 (ground arith) in
            rw other (rw same_q (rw gone (ea, zy, rw one rest)))
        | inr r ↦
            let one : (update n p w y).to ≡ (n y).to = ground arith in
            let rest : Chained (update n p w) (n y).to (remove q (x ∷ ys)) =
              Chained-skip (n y).to p q w (x ∷ ys) c (ground arith) (ground arith) e z ew in
            rw other (ea, zy, rw one rest)
      ]

  Chained-order :
      (order : ℕ → ℕ) (a t : ℕ) (ys : List ℕ)
      → Chained n a ys
      → ((c : ℕ) → has c ys ≡ true → (n c).to ≢ end → order c ≤ order (n c).to)
      → has t ys ≡ true
      → order a ≤ order t
  Chained-order order a t [] c s h = ground arith
  Chained-order order a t (y ∷ []) (e, z, c) s h =
      let k : a ≡ t = ground arith in omega (arith, ap order k)
  Chained-order order a t (y ∷ x ∷ ys) (e, z, c) s h = elim (Bool-cases (t == y)) [
    | inl q ↦ let k : a ≡ t = ground arith in omega (arith, ap order k)
    | inr q ↦
        let rest : order (n y).to ≤ order t =
          Chained-order order (n y).to t (x ∷ ys) c (λ b f. s b (ground arith)) (ground arith) in
        let one : order y ≤ order (n y).to = s y (ground arith) (λ k. c.1 (sym c.0 ∙ k)) in
        omega (arith, ap order e)
  ]

  -- where the links of a chain do not lead to a smaller order, the node of a smaller order is first
  pub Reaches-by_order :
      (order : ℕ → ℕ) (a b t : ℕ) (ys : List ℕ)
      → Chained n a ys
      → ((c : ℕ) → has c ys ≡ true → (n c).to ≢ end → order c ≤ order (n c).to)
      → has b ys ≡ true
      → has t ys ≡ true
      → order b < order t
      → Reaches n t b
  Reaches-by_order order a b t [] c s hb ht l = ground arith
  Reaches-by_order order a b t (y ∷ ys) (e, z, c) s hb ht l = elim (Bool-cases (b == y)) [
    | inl q ↦
        let at_b : a ≡ b = ground arith in rw (← at_b) (Chained-Reaches a t (y ∷ ys) (e, z, c) ht)
    | inr q ↦ elim (Bool-cases (t == y)) [
      | inl r ↦
          let at_t : y ≡ t = ground arith in
          let up : order y ≤ order b = Chained-order order y b (y ∷ ys) (refl, z, c) s hb in
          absurd (omega (arith, ap order at_t))
      | inr r ↦
          Reaches-by_order order (n y).to b t ys c (λ x h. s x (ground arith)) (ground arith)
            (ground arith) l
    ]
  ]
