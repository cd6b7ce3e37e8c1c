-- ===== src/Lfht/Chain/Run.antt =====
-- Runs of the operations of src/rculfhash.c on one list, in any interleaving of their accesses.
use userspace_rcu.Prelude.{
  ℕ, ◌≡◌, ◌≢◌, refl, true, false, List, [], ◌∷◌, arith, ◌==◌, has, not, if◌then◌else◌, if-cases,
}
use userspace_rcu.Lfht.Links.{end}
use userspace_rcu.Lfht.Place.{Keys, is_table, Place, by_replace, State}
use userspace_rcu.Lfht.Chain.{
  Call, add, replace, del, lookup, begin, Event, call, access, step, is_resting, replace_look,
  replace_failed,
}
use userspace_rcu.Lfht.Chain.Invariant.{IsBucket, At, private_node, Holds, Steps}
use userspace_rcu.Lfht.Chain.Frame.{Private-brought}
use userspace_rcu.Lfht.Chain.Step.{linked_by, chained_by, write-Steps, Grows-same}
use userspace_rcu.Lfht.Chain.Go.{go-Steps}

-- a node that is in no list and that no other thread adds
abbrev pub IsFresh : (node : ℕ) (s : State) (xs : List ℕ) → Type 0
IsFresh node s xs = (node ≢ end) × (has node xs ≡ false) × ((j : ℕ) → private_node (s.at j) ≢ node)

-- What callers may do. A node is added once; one that is deleted or replaced was added, and the
-- iterator of a replacement has a word that the node had.
abbrev pub Allowed : Keys → Event → State → (xs : List ℕ) → Type 0
Allowed k (call i (add m b node)) s xs =
    IsBucket k b node xs × (is_table m ≡ k.in_table node) × IsFresh node s xs
Allowed k (call i (replace b old old_next key node)) s xs =
    IsBucket k b node xs
    × IsFresh node s xs
    × (k.in_table node ≡ false)
    × ((if old == end then true else has old xs) ≡ true)
    × (k.in_table old ≡ false)
    × ((if old_next.to == end then true else has old_next.to xs) ≡ true)
Allowed k (call i (del b node)) s xs =
    IsBucket k b node xs
    × ((if node == end then true else has node xs) ≡ true)
    × (k.in_table node ≡ false)
Allowed k (call i (lookup key h b)) s xs = has b xs ≡ true
Allowed k (access i) s xs = true ≡ true

-- the nodes that were ever linked, and those of the list, after a step
abbrev pub linked : Event → State → List ℕ → List ℕ
linked (call i c) s xs = xs
linked (access i) s xs = linked_by (s.at i) s xs

abbrev pub chained : Event → State → List ℕ → List ℕ
chained (call i c) s ys = ys
chained (access i) s ys = chained_by (s.at i) s ys

-- a thread begins with a node of its own, or with none
abbrev Begins : Keys → Place → State → (xs ys : List ℕ) → Type 0
Begins k q s xs ys =
    At k q s.next xs ys
    × (has (private_node q) xs ≡ false)
    × ((j : ℕ) → private_node (s.at j) ≡ private_node q → private_node q ≡ end)

module _ (k : Keys) (first : ℕ) (s : State) (xs ys : List ℕ) (h : Holds k first s xs ys) where
  failed-Begins : (b node : ℕ) → Begins k (replace_failed by_replace b node) s xs ys
  unfolding replace_failed
  failed-Begins b node = (refl, h.memory.real, λ j _. refl)

  begin-Begins : (i : ℕ) (c : Call) → Allowed k (call i c) s xs → Begins k (begin k c) s xs ys
  unfolding begin replace_look
  begin-Begins i (add m b node) (ib, t, (z, f, o)) = ((ib, t, z), f, λ j e. absurd (o j e))
  begin-Begins i (replace b old old_next key node) (ib, (z, f, o), t, ho, to, w) =
      if-cases (λ q. Begins k q s xs ys) (old == end) (λ _. (refl, h.memory.real, λ j _. refl))
        (λ e.
          if-cases (λ q. Begins k q s xs ys) (not (k.reverse_hash old == k.reverse_hash node))
            (λ _. (refl, h.memory.real, λ j _. refl))
            (λ d.
              if-cases (λ q. Begins k q s xs ys) (not (k.match old key))
                (λ _. (refl, h.memory.real, λ j _. refl))
                (λ _.
                  if-cases (λ q. Begins k q s xs ys) old_next.removed (λ _. failed-Begins b node)
                    (λ c. (
                      (ib, z, t, ground arith, to, ground arith, c, w),
                      f,
                      λ j g. absurd (o j g),
                    )))))
  begin-Begins i (del b node) (ib, l, t) =
      if-cases (λ q. Begins k q s xs ys) (node == end) (λ _. (refl, h.memory.real, λ j _. refl))
        (λ e. ((ib, ground arith, t), h.memory.real, λ j _. refl))
  begin-Begins i (lookup key hash b) f = (f, h.memory.real, λ j _. refl)

  pub step-Steps :
      (e : Event)
      → Allowed k e s xs
      → Steps k first s xs ys (step k e s) (linked e s xs) (chained e s ys)
  unfolding step
  step-Steps (call i c) a =
      let b = begin-Begins i c a in
      if-cases (λ t. Steps k first s xs ys t xs ys) (is_resting (s.at i))
        (λ _.
          write-Steps k first i s xs ys h s.next xs ys (begin k c) h.memory
            (Grows-same s.next xs ys) b.0
            (Private-brought s.at i (begin k c) xs h.private h.memory.real b.1 b.2))
        (λ _. (h, Grows-same s.next xs ys))
  step-Steps (access i) a = go-Steps k first i s xs ys h

unfoldable pub run : Keys → List Event → State → State
run k [] s = s
run k (e ∷ es) s = run k es (step k e s)

abbrev pub AllAllowed : Keys → List Event → State → (xs : List ℕ) → Type 0
AllAllowed k [] s xs = true ≡ true
AllAllowed k (e ∷ es) s xs = Allowed k e s xs × AllAllowed k es (step k e s) (linked e s xs)

abbrev pub all_linked : Keys → List Event → State → List ℕ → List ℕ
all_linked k [] s xs = xs
all_linked k (e ∷ es) s xs = all_linked k es (step k e s) (linked e s xs)

abbrev pub all_chained : Keys → List Event → State → List ℕ → List ℕ
all_chained k [] s ys = ys
all_chained k (e ∷ es) s ys = all_chained k es (step k e s) (chained e s ys)

-- In any interleaving of adds, unique adds, replacements, deletions, lookups and insertions of
-- buckets, the list stays in the order of the reversed hashes, holds no node twice, and holds every
-- node that was added and is not removed.
pub run-Holds :
    (k : Keys) (first : ℕ) (es : List Event) (s : State) (xs ys : List ℕ)
    → Holds k first s xs ys
    → AllAllowed k es s xs
    → Holds k first (run k es s) (all_linked k es s xs) (all_chained k es s ys)
unfolding run
run-Holds k first [] s xs ys h a = h
run-Holds k first (e ∷ es) s xs ys h (a, b) =
    run-Holds k first es (step k e s) (linked e s xs) (chained e s ys)
      (step-Steps k first s xs ys h e a).0 b
