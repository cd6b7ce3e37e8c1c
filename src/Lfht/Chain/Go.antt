-- ===== src/Lfht/Chain/Go.antt =====
-- Whatever access of src/rculfhash.c a thread makes, what holds of the list still holds.
use userspace_rcu.Prelude.{
  ℕ, ◌≡◌, ◌≢◌, ◌≤◌, refl, true, false, List, arith, not, update, if◌then◌else◌, if-cases, sym, ap,
  ◌∙◌,
}
use userspace_rcu.Lfht.Links.{
  end, clear_flag, flag_bucket, flag_removed, flag_removal_owner, flag_removed_or_removal_owner,
  same, keep_bucket,
}
use userspace_rcu.Lfht.Place.{
  Keys, own, return_replaced, Place, returned, add_first, add_next, add_duplicate, add_insert,
  add_gc, gc_first, gc_next, gc_swap, del_load, del_flag, del_own_load, del_own, replace_swap,
  lookup_first, lookup_next, State, is_table, move, deleted, added,
}
use userspace_rcu.Lfht.Chain.{
  go, replace_look, add_look, add_read, duplicate_read, gc_look, gc_read, lookup_look, lookup_read,
}
use userspace_rcu.Lfht.Chain.Invariant.{order, At, private_node, Holds, Steps}
use userspace_rcu.Lfht.Chain.Writes
use userspace_rcu.Lfht.Chain.Frame.{Private-same}
use userspace_rcu.Lfht.Chain.Reads.{
  KeepsNode, add_look-At, add_read-At, duplicate_read-At, replace_look-At, gc_look-At, gc_read-At,
  lookup_look-At, lookup_read-At,
}
use userspace_rcu.Lfht.Chain.Step.{
  linked_by, chained_by, same-eq, Grows-same, write-Steps, read-Steps, bucket-clean, bucket-Reaches,
  skip-Steps, put-Steps,
}

no_node : (q : Place) (x : ℕ) → private_node q ≡ end → KeepsNode q x
no_node q x e = ground arith

module _ (k : Keys) (first i : ℕ) (s : State) (xs ys : List ℕ) (h : Holds k first s xs ys) where
  -- a read after which the thread keeps its node
  keep-Steps :
      (q : Place) (x : ℕ)
      → private_node (s.at i) ≡ x
      → At k q s.next xs ys × KeepsNode q x
      → Steps k first s xs ys (move i q s) xs ys
  keep-Steps q x e p = read-Steps k first i s xs ys h q p.0 (rw e p.1)

  -- a read of a thread that has no node
  plain-Steps :
      (q : Place)
      → At k q s.next xs ys × (private_node q ≡ end)
      → Steps k first s xs ys (move i q s) xs ys
  plain-Steps q p = read-Steps k first i s xs ys h q p.0 (no_node q (private_node (s.at i)) p.1)

  go_known :
      (q : Place)
      → s.at i ≡ q
      → At k q s.next xs ys
      → Steps k first s xs ys (go k i q s) (linked_by q s xs) (chained_by q s ys)
  unfolding go
  go_known (returned r) e a = (h, Grows-same s.next xs ys)
  go_known (add_first m b node) e a =
      let c = bucket-clean k first i s xs ys h b node a.0 in
      let p =
        add_look-At k first s.next xs ys h.memory m b node b a a.0.0 (s.next b) c a.0.2
          (h.memory.targets b) in
      keep-Steps (add_look k m b node b (s.next b)) node (ap private_node e) (p.0, λ _. p.1)
  go_known (add_next m b node prev iter) e a =
      let p = add_read-At k first s.next xs ys h.memory m b node prev a.0 a.1.0 iter a in
      keep-Steps (add_read k m b node prev iter (s.next iter.to)) node (ap private_node e)
        (p.0, λ _. p.1)
  go_known (add_duplicate m b node prev iter d) e a =
      keep-Steps (duplicate_read k m b node prev iter d (s.next d)) node (ap private_node e)
        (duplicate_read-At k first s.next xs ys h.memory m b node prev iter d a)
  go_known (add_insert m b node prev iter) e a =
      let v = if is_table m then flag_bucket (clear_flag iter.to) else clear_flag iter.to in
      let b_ok : v.bucket ≡ k.in_table node = ground (arith, a.0.1) in
      put-Steps k first i s xs ys h prev node iter v (keep_bucket iter node) (returned added)
        (add_first m b node) a.1.0 a.1.1 (ap private_node e) a.0.2 (ground arith) (ground arith)
        (λ _. ground arith) (λ _. b_ok) (ground arith) (λ _. ground arith) (ground arith)
        (λ _. ground arith) a.2.0 (λ z. ground (arith, a.2.1)) (λ _ z. ground (arith, a.2.1)) refl
        refl a.0 (λ _. refl)
  go_known (add_gc m b node prev iter next) e (a, (hp, c), (z, hi, r, t)) =
      skip-Steps k first i s xs ys h prev iter next (add_first m b node) hp c z hi r t a
        (rw e (λ _. refl))
  go_known (gc_first c b node) e u =
      let l = bucket-clean k first i s xs ys h b node u.0 in
      plain-Steps (gc_look k c b node b (s.next b)) (
        gc_look-At k first s.next xs ys h.memory c b node u b (s.next b) u.0.0 l
          (h.memory.targets b) (bucket-Reaches k first i s xs ys h c b node u))
  go_known (gc_next c b node prev iter) e a =
      plain-Steps (gc_read k c b node prev iter (s.next iter.to))
        (gc_read-At k first s.next xs ys h.memory c b node a.0 prev iter a)
  go_known (gc_swap c b node prev iter next) e (a, (hp, c'), (z, hi, r, t)) =
      skip-Steps k first i s xs ys h prev iter next (gc_first c b node) hp c' z hi r t a
        (no_node (gc_first c b node) (private_node (s.at i)) refl)
  go_known (del_load b node) e a = plain-Steps _ (
      if-cases (λ q. At k q s.next xs ys × (private_node q ≡ end)) (s.next node).removed
        (λ _. (refl, refl)) (λ _. (a, refl)))
  go_known (del_flag b node) e a =
      let w = flag_removed (s.next node) in
      let t : k.in_table node ≡ true → w.removed ≡ false = λ f. ground (arith, a.2) in
      let l =
        Writes.flag-Linked k first s.next xs ys h.memory node w a.1 refl (λ _. refl) (λ f. f)
          (h.memory.flagged node a.1) t (λ _. refl) in
      let g =
        Writes.flag-Grows k first s.next xs ys h.memory node w a.1 refl (λ _. refl) (λ f. f)
          (h.memory.flagged node a.1) t (λ _. refl) in
      let r : (update s.next node w node).removed ≡ true = ground arith in
      write-Steps k first i s xs ys h (update s.next node w) xs ys (gc_first own b node) l g
        (a.0, (a.1, r, a.2), refl)
        (Private-same s.at i (gc_first own b node) xs h.private h.memory.real
          (no_node (gc_first own b node) (private_node (s.at i)) refl))
  go_known (del_own_load node) e ((hn, r, t), f) =
      plain-Steps (del_own node (flag_removal_owner (s.next node)))
        (((hn, r, t), f, refl, r, refl, h.memory.flagged node hn ∙ t), refl)
  go_known (del_own node next) e (v, f, to, r, o, b) =
      let t : k.in_table node ≡ true → next.removed ≡ false = λ d. ground (arith, v.2) in
      let l =
        Writes.flag-Linked k first s.next xs ys h.memory node next v.0 to (λ _. r) (λ _. o)
          (b ∙ sym v.2) t (λ _. r) in
      let g =
        Writes.flag-Grows k first s.next xs ys h.memory node next v.0 to (λ _. r) (λ _. o)
          (b ∙ sym v.2) t (λ _. r) in
      let q = returned (deleted (not (s.next node).owner)) in
      write-Steps k first i s xs ys h (update s.next node next) xs ys q l g refl
        (Private-same s.at i q xs h.private h.memory.real (no_node q (private_node (s.at i)) refl))
  go_known (replace_swap c b old old_next node) e a =
      let (ib, z, tn, ho, to, o, c', target) = a in
      let w = flag_removed_or_removal_owner (clear_flag node) in
      let ok : same (s.next old) old_next ≡ true
          → (old_next.owner ≡ false) × (old_next.bucket ≡ k.in_table node) =
        λ f.
          let q = same-eq (s.next old) old_next f in
          (ground (arith, q, h.memory.owned old ho), ground (arith, q, h.memory.flagged old ho)) in
      let l : order k old ≤ order k node = omega arith in
      let up : same (s.next old) old_next ≡ true
          → old_next.to ≢ end
          → order k node ≤ order k old_next.to =
        λ f d.
          let q = same-eq (s.next old) old_next f in
          let u : order k old ≤ order k old_next.to =
            rw q.0 at (h.memory.sorted old ho (λ g. d (sym q.0 ∙ g))) in
          omega arith in
      let r : (update (update s.next node old_next) old w old).removed ≡ true = ground arith in
      let again = replace_look-At k first s.next xs ys h.memory c b old node ib z tn ho to o in
      put-Steps k first i s xs ys h old node old_next old_next w
        (gc_first (return_replaced c old) b node) (replace_look c b old (s.next old) node) ho c'
        (ap private_node e) z refl c' (λ f. (ok f).0) (λ f. (ok f).1) refl
        (λ f. ground (arith, ok f)) (λ _. refl) (ground arith) l (λ g. ground arith) up
        ((ground arith, ib.1, ib.2, ib.3), (ground arith, r, to), o) refl again.0 again.1
  go_known (lookup_first key hash b) e a =
      plain-Steps (lookup_look k key hash (s.next b).to)
        (lookup_look-At k first s.next xs ys h.memory key hash (s.next b).to (h.memory.targets b))
  go_known (lookup_next key hash node) e a =
      plain-Steps (lookup_read k key hash node (s.next node))
        (lookup_read-At k first s.next xs ys h.memory key hash node a)

  pub go-Steps :
      Steps k first s xs ys (go k i (s.at i) s) (linked_by (s.at i) s xs) (chained_by (s.at i) s ys)
  go-Steps = go_known (s.at i) refl (h.places i)
