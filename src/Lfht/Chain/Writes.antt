-- ===== src/Lfht/Chain/Writes.antt =====
-- The writes that the operations of src/rculfhash.c make to the words `next`: each keeps the list
-- in order, and what other threads rely on.
use userspace_rcu.Prelude.{
  ℕ, ◌≡◌, ◌≢◌, ◌≤◌, refl, true, false, List, ◌∷◌, arith, ◌==◌, has, update, remove, Bool-cases, inl,
  inr, sym, ap, ◌∙◌,
}
use userspace_rcu.Lfht.Links.{Link, end}
use userspace_rcu.Lfht.Place.{Keys}
use userspace_rcu.Lfht.Chain.Reach.{Reaches-same, Reaches-other, Reaches-insert, Reaches-skip}
use userspace_rcu.Lfht.Chain.Chained.{
  put_after, has-put_after, distinct-put_after, distinct-remove, Chained-frame, Chained-insert,
  Chained-skip,
}
use userspace_rcu.Lfht.Chain.Invariant.{order, Linked, Grows}

module _ (k : Keys) (first : ℕ) (n : ℕ → Link) (xs ys : List ℕ) (h : Linked k first n xs ys) where
  -- flags are set in the word of a linked node
  module _ (p : ℕ) (w : Link) (hp : has p xs ≡ true) (to : w.to ≡ (n p).to)
      (stays : (n p).removed ≡ true → w.removed ≡ true) (won : (n p).owner ≡ true → w.owner ≡ true)
      (bucket : w.bucket ≡ k.in_table p) (table : k.in_table p ≡ true → w.removed ≡ false)
      (owner : w.owner ≡ true → w.removed ≡ true) where
    flag-to : (c : ℕ) → (update n p w c).to ≡ (n c).to
    flag-to c = elim (Bool-cases (p == c)) [
      | inl e ↦ let q : p ≡ c = ground arith in rw e (to ∙ ap (λ d. (n d).to) q)
      | inr e ↦ rw e refl
    ]

    pub flag-Linked : Linked k first (update n p w) xs ys
    flag-Linked = record {
      chain = Chained-frame n (update n p w) first ys h.chain (λ c e. flag-to c);
      once = h.once;
      starts = h.starts;
      begins = h.begins;
      real = h.real;
      within = h.within;
      targets = λ c. rw (flag-to c) (h.targets c);
      sorted = λ c. rw (flag-to c) (h.sorted c);
      kept = λ c. ground (arith, h.kept c);
      flagged = λ c. ground (arith, h.flagged c, bucket);
      tables = λ c. ground (arith, h.tables c);
      owned = λ c. ground (arith, h.owned c);
    }

    pub flag-Grows : Grows n xs ys (update n p w) xs ys
    flag-Grows = record {
      more = λ c e. e;
      fewer = λ c e f. f;
      stays = λ c. ground arith;
      frozen = λ c e f. flag-to c;
      won = λ c. ground arith;
      paths = λ t a ht hy ha r. Reaches-same n (update n p w) t a flag-to r;
    }

  -- the node `q` after `p`, which is removed, is taken out
  module _ (p q : ℕ) (w : Link) (hp : has p xs ≡ true) (clean : (n p).removed ≡ false)
      (next : (n p).to ≡ q) (z : q ≢ end) (gone : (n q).removed ≡ true) (to : w.to ≡ (n q).to)
      (removed : w.removed ≡ false) (owner : w.owner ≡ false)
      (bucket : w.bucket ≡ k.in_table p) where
    order-skip : (n q).to ≢ end → order k p ≤ order k (n q).to
    order-skip f =
        let hq : has q xs ≡ true = rw next at (h.targets p (λ e. z (sym next ∙ e))) in
        let one : order k p ≤ order k q = rw next at (h.sorted p hp (λ e. z (sym next ∙ e))) in
        let two : order k q ≤ order k (n q).to = h.sorted q hq f in omega arith

    first-kept : (first == q) ≡ false
    first-kept = ground (arith, h.tables first (h.within first h.begins) h.starts)

    pub skip-Linked : Linked k first (update n p w) xs (remove q ys)
    skip-Linked = record {
      chain = Chained-skip n first p q w ys h.chain h.once (h.kept p hp clean) next z to;
      once = (distinct-remove q ys h.once).1;
      starts = h.starts;
      begins = ground (arith, first-kept, (distinct-remove q ys h.once).0 first, h.begins);
      real = h.real;
      within = λ c. ground (arith, h.within c, (distinct-remove q ys h.once).0 c);
      targets = λ c. ground (arith, h.targets c, h.targets q);
      sorted = λ c e. elim (Bool-cases (p == c)) [
        | inl d ↦
            let at_p : p ≡ c = ground arith in
            rw d (rw to (λ f. omega (arith, ap (order k) at_p, order-skip f)))
        | inr d ↦ rw d (h.sorted c e)
      ];
      kept = λ c. ground (arith, h.kept c, (distinct-remove q ys h.once).0 c);
      flagged = λ c. ground (arith, h.flagged c, bucket);
      tables = λ c. ground (arith, h.tables c);
      owned = λ c. ground (arith, h.owned c);
    }

    pub skip-Grows : Grows n xs ys (update n p w) xs (remove q ys)
    skip-Grows = record {
      more = λ c e. e;
      fewer = λ c. ground (arith, (distinct-remove q ys h.once).0 c);
      stays = λ c. ground (arith, clean);
      frozen = λ c. ground (arith, clean);
      won = λ c. ground (arith, clean, h.owned c);
      paths = λ t a ht hy ha r.
          let d : (n p).to ≢ t = ground (arith, (distinct-remove q ys h.once).0 t) in
          let e : w.to ≡ (n (n p).to).to = to ∙ ap (λ c. (n c).to) (sym next) in
          Reaches-skip n t p a w d e r;
    }

  -- a node `x` that was never linked is put in after `p`
  module _ (p x : ℕ) (v w : Link) (hp : has p xs ≡ true) (clean : (n p).removed ≡ false)
      (fresh : has x xs ≡ false) (z : x ≢ end) (v_to : v.to ≡ (n p).to) (w_to : w.to ≡ x)
      (v_removed : v.removed ≡ false) (v_owner : v.owner ≡ false)
      (v_bucket : v.bucket ≡ k.in_table x) (w_bucket : w.bucket ≡ k.in_table p)
      (w_owner : w.owner ≡ true → w.removed ≡ true)
      (w_table : k.in_table p ≡ true → w.removed ≡ false) (below : order k p ≤ order k x)
      (above : (n p).to ≢ end → order k x ≤ order k (n p).to) where
    inside : has p ys ≡ true
    inside = h.kept p hp clean

    apart : (p == x) ≡ false
    apart = ground arith

    outside : has x ys ≡ false
    outside = ground (arith, h.within x)

    pub put-Linked : Linked k first (update (update n x v) p w) (x ∷ xs) (put_after p x ys)
    put-Linked = record {
      chain = Chained-insert n first p x v w ys h.chain h.once inside outside z v_to w_to;
      once = distinct-put_after p x ys inside outside h.once;
      starts = h.starts;
      begins = ground (arith, has-put_after p x first ys inside, h.begins);
      real = ground (arith, h.real);
      within = λ c. ground (arith, h.within c, has-put_after p x c ys inside);
      targets = λ c. ground (arith, h.targets c, h.targets p);
      sorted = λ c e. elim (Bool-cases (p == c)) [
        | inl d ↦
            let is_p : p ≡ c = ground arith in
            rw d (rw w_to (λ f. omega (arith, ap (order k) is_p, below)))
        | inr d ↦ elim (Bool-cases (x == c)) [
          | inl f ↦
              let is_x : x ≡ c = ground arith in
              rw d (rw f (rw v_to (λ g. omega (arith, ap (order k) is_x, above g))))
          | inr f ↦ rw d (rw f (h.sorted c (ground arith)))
        ]
      ];
      kept = λ c. ground (arith, h.kept c, has-put_after p x c ys inside);
      flagged = λ c. ground (arith, h.flagged c);
      tables = λ c. ground (arith, h.tables c, apart);
      owned = λ c. ground (arith, h.owned c, apart);
    }

    pub put-Grows : Grows n xs ys (update (update n x v) p w) (x ∷ xs) (put_after p x ys)
    put-Grows = record {
      more = λ c. ground arith;
      fewer = λ c. ground (arith, has-put_after p x c ys inside);
      stays = λ c. ground (arith, clean);
      frozen = λ c. ground (arith, clean);
      won = λ c. ground (arith, clean, h.owned c);
      paths = λ t a ht hy ha r.
          Reaches-insert n t p a x v w (ground (arith, h.real)) z (ground arith) (ground arith)
            (λ c. ground (arith, h.targets c)) v_to w_to r;
    }

  -- a thread writes the word of its own node, which no other sees
  module _ (x : ℕ) (v : Link) (fresh : has x xs ≡ false) (z : x ≢ end)
      (target : v.to ≢ end → has v.to xs ≡ true) where
    pub own-Linked : Linked k first (update n x v) xs ys
    own-Linked = record {
      chain = Chained-frame n (update n x v) first ys h.chain (λ c. ground (arith, h.within c));
      once = h.once;
      starts = h.starts;
      begins = h.begins;
      real = h.real;
      within = h.within;
      targets = λ c. ground (arith, h.targets c);
      sorted = λ c e. let q : (x == c) ≡ false = ground arith in rw q (h.sorted c e);
      kept = λ c. ground (arith, h.kept c);
      flagged = λ c. ground (arith, h.flagged c);
      tables = λ c. ground (arith, h.tables c);
      owned = λ c. ground (arith, h.owned c);
    }

    pub own-Grows : Grows n xs ys (update n x v) xs ys
    own-Grows = record {
      more = λ c e. e;
      fewer = λ c e f. f;
      stays = λ c. ground arith;
      frozen = λ c. ground arith;
      won = λ c. ground arith;
      paths = λ t a ht hy ha r.
          Reaches-other n t a x v (ground arith) (λ c. ground (arith, h.targets c, h.real)) r;
    }
