-- ===== src/WfStack/Contents.antt =====
-- Whatever the interleaving, the stack is last in, first out.
use userspace_rcu.Prelude.{
  ℕ, ◌≡◌, ◌≢◌, refl, true, false, List, [], ◌∷◌, arith, ◌==◌, has, Bool-cases, inl, inr,
}
use userspace_rcu.WfStack.{
  null, end_mark, State, push, store_link, is_resting, Event, call_push, link, node_init, call_pop,
  call_pop_all, go, step,
}
use userspace_rcu.WfStack.Invariant.{
  Holds, Linked-frame, Linked-store, Linked-stored, Popping-frame, after_pop, pop-Holds,
}

-- what the stack holds after a step
abbrev pub after : Event → State → List ℕ → List ℕ
after (call_push node) s xs = node ∷ xs
after go s xs = after_pop s.popper s xs
after _ s xs = xs

-- What the callers may do: push a node of their own whose link is NULL, as the assertion of
-- `_cds_wfs_push` demands, with no store to it to come, and reset one.
abbrev pub Allowed : Event → State → List ℕ → Type 0
Allowed (call_push node) s xs =
    (has node xs ≡ false)
    × (node ≢ null)
    × (node ≢ end_mark)
    × (s.next node ≡ null)
    × (s.linking node ≡ null)
Allowed (node_init node) s xs = has node xs ≡ false
Allowed (link node) s xs = true ≡ true
Allowed (call_pop b) s xs = true ≡ true
Allowed call_pop_all s xs = true ≡ true
Allowed go s xs = true ≡ true

has-cons : (x : ℕ) (xs : List ℕ) (c : ℕ) → has c xs ≡ true → has c (x ∷ xs) ≡ true
has-cons x xs c i = ground arith

-- two nodes of which one is on a list and the other is not
apart : (a c : ℕ) (xs : List ℕ) → has a xs ≡ false → has c xs ≡ true → (a == c) ≡ false
apart a c [] o i = ground arith
apart a c (x ∷ xs) o i = ground (arith, apart a c xs)

push-Holds :
    (node : ℕ) (s : State) (xs : List ℕ)
    → Holds s xs
    → Allowed (call_push node) s xs
    → Holds (push node s) (node ∷ xs)
unfolding push
push-Holds node s xs (h, d, l, p) (o, z, e, n, k) = (
  refl,
  ground arith,
  (
    z,
    e,
    inr (n, ground arith),
    Linked-frame s.next s.linking s.next _ xs l (λ c i. (refl, rw (apart node c xs o i) refl)),
  ),
  Popping-frame s.popper s.next s.next xs (node ∷ xs) p (has-cons node xs) (λ c i q. refl),
)

link-Holds : (node : ℕ) (s : State) (xs : List ℕ) → Holds s xs → Holds (store_link node s) xs
unfolding store_link
link-Holds node s xs (h, d, l, p) = elim (Bool-cases (s.linking node == null)) [
  | inl e ↦ rw e (h, d, l, p)
  | inr e ↦ rw e (
    h,
    d,
    Linked-store s.next s.linking _ _ xs node l e (λ c. ground arith) (λ c. ground arith),
    Popping-frame s.popper s.next _ xs xs p (λ c i. i)
        (λ c i q. ground (arith, Linked-stored s.next s.linking xs c l i q)),
  )
]

pub step-Holds :
    (e : Event) (s : State) (xs : List ℕ)
    → Holds s xs
    → Allowed e s xs
    → Holds (step e s) (after e s xs)
unfolding step
step-Holds (call_push node) s xs w a = push-Holds node s xs w a
step-Holds (link node) s xs w a = link-Holds node s xs w
step-Holds (node_init node) s xs (h, d, l, p) a = (
  h,
  d,
  Linked-frame s.next s.linking _ s.linking xs l (λ c i. (ground arith, refl)),
  Popping-frame s.popper s.next _ xs xs p (λ c i. i) (λ c i q. ground arith),
)
step-Holds (call_pop b) s xs (h, d, l, p) a = elim (Bool-cases (is_resting s.popper)) [
  | inl e ↦ rw e (h, d, l, refl)
  | inr e ↦ rw e (h, d, l, p)
]
step-Holds call_pop_all s xs (h, d, l, p) a = elim (Bool-cases (is_resting s.popper)) [
  | inl e ↦ rw e (h, d, l, refl)
  | inr e ↦ rw e (h, d, l, p)
]
step-Holds go s xs w a = pop-Holds s.popper s xs refl w

unfoldable pub run : List Event → State → State
run [] s = s
run (e ∷ es) s = run es (step e s)

-- what a stack holds after the pushes and pops that the events complete, in their order
abbrev pub contents : List Event → State → List ℕ → List ℕ
contents [] s xs = xs
contents (e ∷ es) s xs = contents es (step e s) (after e s xs)

abbrev pub AllAllowed : List Event → State → List ℕ → Type 0
AllAllowed [] s xs = true ≡ true
AllAllowed (e ∷ es) s xs = Allowed e s xs × AllAllowed es (step e s) (after e s xs)

-- In any interleaving, with one popper at a time, the head and the links, those that are still to be
-- stored included, represent the stack that results if each push adds its node on top at its
-- exchange, each successful pop takes the top off and each pop of all empties it.
pub run-represents :
    (es : List Event) (s : State) (xs : List ℕ)
    → Holds s xs
    → AllAllowed es s xs
    → Holds (run es s) (contents es s xs)
unfolding run
run-represents [] s xs w a = w
run-represents (e ∷ es) s xs w (a, b) =
    run-represents es (step e s) (after e s xs) (step-Holds e s xs w a) b
