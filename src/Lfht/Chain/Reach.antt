-- ===== src/Lfht/Chain/Reach.antt =====
-- Paths along the words `next` of src/rculfhash.c, and what the writes to these words do to them.
use userspace_rcu.Prelude.{ℕ, ◌≡◌, ◌≢◌, true, false, arith, ◌==◌, update, Bool-cases, inl, inr}
use userspace_rcu.Lfht.Links.{Link, end}

-- From a node, the links lead to `t`.
pub data Reaches (n : ℕ → Link) (t : ℕ) : ℕ → Type 0 where
  here : {a : ℕ} → a ≡ t → Reaches n t a
  there : {a : ℕ} → a ≢ end → Reaches n t (n a).to → Reaches n t a

pub Reaches-end : (n : ℕ → Link) (t : ℕ) → t ≢ end → Reaches n t end → true ≡ false
Reaches-end n t z (here e) = ground arith
Reaches-end n t z (there f r) = ground arith

pub Reaches-next : (n : ℕ → Link) (t a : ℕ) → a ≢ t → Reaches n t a → Reaches n t (n a).to
Reaches-next n t a d (here e) = ground arith
Reaches-next n t a d (there f r) = r

-- writes that leave every pointer
pub Reaches-same :
    (n m : ℕ → Link) (t a : ℕ) → ((c : ℕ) → (m c).to ≡ (n c).to) → Reaches n t a → Reaches m t a
Reaches-same n m t a f (here e) = here e
Reaches-same n m t a f (there z r) = there z (rw (f a) (Reaches-same n m t (n a).to f r))

module _ (n : ℕ → Link) (t : ℕ) where
  -- the word of a node to which nothing leads is written
  pub Reaches-other :
      (a x : ℕ) (v : Link)
      → a ≢ x
      → ((c : ℕ) → (n c).to ≢ x)
      → Reaches n t a
      → Reaches (update n x v) t a
  Reaches-other a x v d f (here e) = here e
  Reaches-other a x v d f (there z r) =
      let one : (update n x v a).to ≡ (n a).to = ground arith in
      there z (rw one (Reaches-other (n a).to x v (f a) f r))

module _ (n : ℕ → Link) (t p : ℕ) where
  -- a node `x`, to which nothing leads, is put in after `p`
  pub Reaches-insert :
      (a x : ℕ) (v w : Link)
      → p ≢ end
      → x ≢ end
      → x ≢ p
      → a ≢ x
      → ((c : ℕ) → (n c).to ≢ x)
      → v.to ≡ (n p).to
      → w.to ≡ x
      → Reaches n t a
      → Reaches (update (update n x v) p w) t a
  Reaches-insert a x v w zp zx d q f ev ew (here e) = here e
  Reaches-insert a x v w zp zx d q f ev ew (there z r) =
      let rest = Reaches-insert (n a).to x v w zp zx d (f a) f ev ew r in
      elim (Bool-cases (a == p)) [
        | inl e ↦
            let at_p : a ≡ p = ground arith in
            let one : ((update (update n x v) p w) a).to ≡ x = ground arith in
            let two : ((update (update n x v) p w) x).to ≡ (n a).to = rw at_p (ground arith) in
            there z (rw one (there zx (rw two rest)))
        | inr e ↦
            let one : ((update (update n x v) p w) a).to ≡ (n a).to = ground arith in
            there z (rw one rest)
      ]

  -- the node after `p`, which is not `t`, is taken out
  pub Reaches-skip :
      (a : ℕ) (w : Link)
      → (n p).to ≢ t
      → w.to ≡ (n (n p).to).to
      → Reaches n t a
      → Reaches (update n p w) t a
  Reaches-skip a w d e (here q) = here q
  Reaches-skip a w d e (there z (here q)) =
      let other : (a == p) ≡ false = elim (Bool-cases (a == p)) [
        | inl h ↦ ground arith
        | inr h ↦ h
      ] in
      let one : ((update n p w) a).to ≡ (n a).to = ground arith in there z (rw one (here q))
  Reaches-skip a w d e (there z (there y r)) = elim (Bool-cases (a == p)) [
    | inl h ↦
        let at_p : a ≡ p = ground arith in
        let one : ((update n p w) a).to ≡ (n (n a).to).to = rw at_p (ground arith) in
        there z (rw one (Reaches-skip (n (n a).to).to w d e r))
    | inr h ↦
        let one : ((update n p w) a).to ≡ (n a).to = ground arith in
        there z (rw one (Reaches-skip (n a).to w d e (there y r)))
  ]
