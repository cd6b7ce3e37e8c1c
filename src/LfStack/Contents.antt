-- ===== src/LfStack/Contents.antt =====
-- Whatever the interleaving, the stack is last in, first out.
use userspace_rcu.Prelude.{
  ℕ, ◌≡◌, ◌≢◌, refl, Bool, true, false, List, [], ◌∷◌, arith, ◌==◌, has, Bool-cases, inl, inr,
  is_empty, not,
}
use userspace_rcu.LfStack.{
  null, Push, pushed, pushing, Pop, popped, popped_all, load_head, load_next, swap_head, take_all,
  State, begin_push, push, pop, Event, call_push, go_push, call_pop, call_pop_all, go_pop, step,
  is_resting,
}
use userspace_rcu.LfStack.Invariant.{
  Chained, private_node, Holds, push-Holds, Private-started, pop-Holds, after_push, after_pop,
}

-- what the stack holds after a step
abbrev pub after : Event → State → List ℕ → List ℕ
after (call_push i node) s xs = xs
after (go_push i) s xs = after_push (s.pusher i) s xs
after call_pop s xs = xs
after call_pop_all s xs = xs
after go_pop s xs = after_pop s.popper s xs

abbrev is_pushed : Push → Bool
is_pushed (pushed b) = true
is_pushed (pushing node head) = false

-- what the callers may do: a thread that is in no push may push a node of its own
abbrev pub Allowed : Event → State → List ℕ → Type 0
Allowed (call_push i node) s xs =
    (is_pushed (s.pusher i) ≡ true)
    × (node ≢ null)
    × (has node xs ≡ false)
    × ((j : ℕ) → private_node (s.pusher j) ≢ node)
Allowed (go_push i) s xs = true ≡ true
Allowed call_pop s xs = true ≡ true
Allowed call_pop_all s xs = true ≡ true
Allowed go_pop s xs = true ≡ true

pub step-Holds :
    (e : Event) (s : State) (xs : List ℕ)
    → Holds s xs
    → Allowed e s xs
    → Holds (step e s) (after e s xs)
unfolding step begin_push
step-Holds (call_push i node) s xs (c, d, p, r) (q, z, o, f) =
    (c, d, Private-started s.pusher i (pushing node null) xs p (ground arith) o f, r)
step-Holds (go_push i) s xs w a = push-Holds i (s.pusher i) s xs refl w
step-Holds call_pop s xs (c, d, p, r) a = elim (Bool-cases (is_resting s.popper)) [
  | inl e ↦ rw e (c, d, p, refl)
  | inr e ↦ rw e (c, d, p, r)
]
step-Holds call_pop_all s xs (c, d, p, r) a = elim (Bool-cases (is_resting s.popper)) [
  | inl e ↦ rw e (c, d, p, refl)
  | inr e ↦ rw e (c, d, p, r)
]
step-Holds go_pop s xs w a = pop-Holds s.popper s xs refl w

unfoldable pub run : List Event → State → State
run [] s = s
run (e ∷ es) s = run es (step e s)

-- what a stack holds after the pushes and pops that the events complete, in their order
abbrev pub contents : List Event → State → List ℕ → List ℕ
contents [] s xs = xs
contents (e ∷ es) s xs = contents es (step e s) (after e s xs)

abbrev pub AllAllowed : List Event → State → List ℕ → Type 0
AllAllowed [] s xs = true ≡ true
AllAllowed (e ∷ es) s xs = Allowed e s xs × AllAllowed es (step e s) (after e s xs)

-- In any interleaving, with one popper at a time, the links from the head represent the stack that
-- results if each successful push adds its node on top, each successful pop takes the top off and
-- each pop of all empties it, at its cmpxchg or exchange; and no pusher's node is on it before.
pub run-lifo :
    (es : List Event) (s : State) (xs : List ℕ)
    → Holds s xs
    → AllAllowed es s xs
    → Holds (run es s) (contents es s xs)
unfolding run
run-lifo [] s xs w a = w
run-lifo (e ∷ es) s xs w (a, b) = run-lifo es (step e s) (after e s xs) (step-Holds e s xs w a) b

-- what the answer of a step of the popper says of the contents before and after it
abbrev pub Told : (before after : Pop) (n : ℕ → ℕ) (xs ys : List ℕ) → Type 0
Told load_head (popped node) n xs ys = (xs ≡ []) × (node ≡ null)
Told (swap_head head next_head) (popped node) n xs ys = xs ≡ node ∷ ys
Told take_all (popped_all head) n xs ys = Chained n head xs
Told _ _ n xs ys = true ≡ true

pop-Told :
    (q : Pop) (s : State) (xs : List ℕ)
    → s.popper ≡ q
    → Holds s xs
    → Told q (pop q s).popper s.next xs (after_pop q s xs)
unfolding pop
pop-Told (popped node) s xs e w = refl
pop-Told (popped_all head) s xs e w = refl
pop-Told load_head s [] e (c, d, p, r) = elim (Bool-cases (s.head == null)) [
  | inl h ↦ rw h (refl, refl)
  | inr h ↦ rw h refl
]
pop-Told load_head s (x ∷ xs) e ((a, z, c), d, p, r) =
    let h : (s.head == null) ≡ false = ground arith in rw h refl
pop-Told (load_next head) s xs e w = refl
pop-Told (swap_head head next_head) s [] e (c, d, p, r) =
    let k : (false ≡ true) × (s.next head ≡ next_head) = rw e at r in ground arith
pop-Told (swap_head head next_head) s (x ∷ xs) e ((a, z, c), d, p, r) =
    elim (Bool-cases (s.head == head)) [ inl h ↦ rw h (ground arith) | inr h ↦ rw h refl ]
pop-Told take_all s xs e (c, d, p, r) = c

-- A pop returns NULL only from an empty stack and otherwise the top node, which it takes off; a pop
-- of all returns the head of a list of all that the stack held.
pub popper-answers :
    (s : State) (xs : List ℕ)
    → Holds s xs
    → Told s.popper (step go_pop s).popper s.next xs (after go_pop s xs)
unfolding step
popper-answers s xs w = pop-Told s.popper s xs refl w

eq_self : (i : ℕ) → (i == i) ≡ true
eq_self i = ground arith

null-empty : (n : ℕ → ℕ) (a : ℕ) (xs : List ℕ) → Chained n a xs → (a == null) ≡ is_empty xs
null-empty n a [] c = ground arith
null-empty n a (x ∷ xs) (e, z, c) = ground arith

-- a round that finds the head that it expects
push-hit :
    (s : State) (xs : List ℕ) (i node old : ℕ)
    → Chained s.next s.head xs
    → (s.head == old) ≡ true
    → ((push i (pushing node old) s).pusher i ≡ pushed (not (is_empty xs)))
      × (after_push (pushing node old) s xs ≡ node ∷ xs)
unfolding push
push-hit s xs i node old c h =
    let q : (old == null) ≡ is_empty xs = ground (arith, null-empty s.next s.head xs c) in
    rw (h, eq_self i, q) (refl, refl)

-- a round that does not
push-miss :
    (s : State) (xs : List ℕ) (i node old : ℕ)
    → (s.head == old) ≡ false
    → ((push i (pushing node old) s).pusher i ≡ pushing node s.head)
      × (after_push (pushing node old) s xs ≡ xs)
      × ((push i (pushing node old) s).head ≡ s.head)
unfolding push
push-miss s xs i node old h = rw (h, eq_self i) (refl, refl, refl)

push-done : (i : ℕ) (b : Bool) (s : State) → push i (pushed b) s ≡ s
unfolding push
push-done i b s = refl

-- A push that no other thread disturbs succeeds in its second round at the latest: its node is then
-- on top, and it says whether the stack held any other.
pub push-second_round :
    (s : State) (xs : List ℕ) (i node old : ℕ)
    → Holds s xs
    → s.pusher i ≡ pushing node old
    → ((run (go_push i ∷ go_push i ∷ []) s).pusher i ≡ pushed (not (is_empty xs)))
      × (contents (go_push i ∷ go_push i ∷ []) s xs ≡ node ∷ xs)
unfolding run step
push-second_round s xs i node old w e = rw e elim (Bool-cases (s.head == old)) [
  | inl h ↦
      let m = push-hit s xs i node old w.0 h in
      rw (m.0, push-done i (not (is_empty xs)) (push i (pushing node old) s)) (m.0, m.1)
  | inr h ↦
      let m = push-miss s xs i node old h in
      let t = push i (pushing node old) s in
      let v : Holds t xs = rw m.1 at (push-Holds i (pushing node old) s xs e w) in
      let k = push-hit t xs i node s.head v.0 (rw m.2 (eq_self s.head)) in rw (m.0, h) k
]
