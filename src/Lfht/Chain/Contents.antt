-- ===== src/Lfht/Chain/Contents.antt =====
-- The set of nodes that the list of src/rculfhash.c stands for.
use userspace_rcu.Prelude.{
  ℕ, ◌≡◌, refl, Bool, List, [], ◌∷◌, arith, fun_ext, ◌==◌, has, not, ◌&&◌, ◌||◌, if◌then◌else◌,
  if-cases, ap, ◌∙◌,
}
use userspace_rcu.Lfht.Links.{same}
use userspace_rcu.Lfht.Place.{
  Keys, Place, add_insert, add_gc, gc_swap, del_flag, del_own, replace_swap, State,
}
use userspace_rcu.Lfht.Chain.{Event, call, access, step, go, is_resting}
use userspace_rcu.Lfht.Chain.Invariant.{Holds, At}
use userspace_rcu.Lfht.Chain.Step.{linked_by, same-eq}
use userspace_rcu.Lfht.Chain.Run.{linked, chained, run, AllAllowed, all_linked, step-Steps}

-- linked, and not removed
abbrev pub is_present : State → List ℕ → ℕ → Bool
is_present s xs c = has c xs && not (s.next c).removed

-- Where the set changes: an add puts its node in, a deletion takes it out when it sets REMOVED_FLAG,
-- and a replacement does both at once.
abbrev effect_by : Place → State → (ℕ → Bool) → ℕ → Bool
effect_by (add_insert m b node prev iter) s f c =
    if same (s.next prev) iter then (c == node) || f c else f c
effect_by (del_flag b node) s f c = f c && not (c == node)
effect_by (replace_swap caller b old old_next node) s f c =
    if same (s.next old) old_next then (c == node) || (f c && not (c == old)) else f c
effect_by _ s f c = f c

abbrev pub effect : Event → State → (ℕ → Bool) → ℕ → Bool
effect (call i o) s f c = f c
effect (access i) s f c = effect_by (s.at i) s f c

abbrev pub effects : Keys → List Event → State → (ℕ → Bool) → ℕ → Bool
effects k [] s f = f
effects k (e ∷ es) s f = effects k es (step k e s) (effect e s f)

module _ (k : Keys) (first : ℕ) (s : State) (xs ys : List ℕ) (h : Holds k first s xs ys) where
  go-present :
      (i : ℕ) (q : Place) (c : ℕ)
      → s.at i ≡ q
      → At k q s.next xs ys
      → is_present (go k i q s) (linked_by q s xs) c ≡ effect_by q s (is_present s xs) c
  unfolding go
  go-present i (add_insert m b node prev iter) c e a =
      ground (arith, h.private.0 i, same-eq (s.next prev) iter)
  go-present i (add_gc m b node prev iter next) c e a = ground (arith, same-eq (s.next prev) iter)
  go-present i (gc_swap d b node prev iter next) c e a = ground (arith, same-eq (s.next prev) iter)
  go-present i (del_flag b node) c e a = ground arith
  go-present i (del_own node next) c e a = ground arith
  go-present i (replace_swap caller b old old_next node) c e a =
      ground (arith, h.private.0 i, same-eq (s.next old) old_next)
  go-present i q c e a = refl

  step-present :
      (e : Event) → is_present (step k e s) (linked e s xs) ≡ effect e s (is_present s xs)
  unfolding step
  step-present (call i o) =
      if-cases (λ (t : State). is_present t xs ≡ is_present s xs) (is_resting (s.at i)) (λ _. refl)
        (λ _. refl)
  step-present (access i) = fun_ext (λ c. go-present i (s.at i) c refl (h.places i))

-- In any interleaving the list stands for the set that results if each add, deletion and replacement
-- takes effect at one access of its own: each node is in it from its cmpxchg until the access that
-- sets its REMOVED_FLAG, and a replacement leaves no moment without the old or the new node.
pub run-contents :
    (k : Keys) (first : ℕ) (es : List Event) (s : State) (xs ys : List ℕ)
    → Holds k first s xs ys
    → AllAllowed k es s xs
    → is_present (run k es s) (all_linked k es s xs) ≡ effects k es s (is_present s xs)
unfolding run
run-contents k first [] s xs ys h a = refl
run-contents k first (e ∷ es) s xs ys h (a, b) =
    run-contents k first es (step k e s) (linked e s xs) (chained e s ys)
      (step-Steps k first s xs ys h e a).0 b
    ∙ ap (effects k es (step k e s)) (step-present k first s xs ys h e)
