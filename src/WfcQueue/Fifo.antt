-- ===== src/WfcQueue/Fifo.antt =====
-- Whatever the interleaving, the queue is first in, first out.
use userspace_rcu.Prelude.{
  ℕ, ◌≡◌, inl, inr, Bool, true, refl, List, [], ◌∷◌, ◌++◌, arith, ◌==◌, last_from, append-nil,
  append_assoc, drop, length, Bool-cases, sym, ap, ◌∙◌,
}
use userspace_rcu.WfcQueue.{
  null, Place, returned, State, taken_from, exchange_tail, store_next, call_from, Event, append,
  link, node_init, call, go, step, taken, appended,
}
use userspace_rcu.WfcQueue.Invariant.{
  Holds, Allowed, Standing-append, Standing-store, Standing-frame, last_from-append,
}
use userspace_rcu.WfcQueue.Dequeue.{dequeue-Takes}

-- what the queue holds after a step
abbrev pub after : Event → State → List ℕ → List ℕ
after (append x rest) s xs = xs ++ x ∷ rest
after (link a) s xs = xs
after (node_init a) s xs = xs
after (call b) s xs = xs
after go s xs = drop (length (taken_from s.place s)) xs

append-Holds :
    (x : ℕ) (rest : List ℕ) (s : State) (xs : List ℕ)
    → Holds s xs
    → Allowed (append x rest) s xs
    → Holds (exchange_tail x (last_from x rest) s) (xs ++ x ∷ rest)
unfolding exchange_tail
append-Holds x rest s xs (z, d, t, w) (y, e, v) = (
  z,
  e,
  sym (last_from-append s.head xs x rest),
  Standing-append s.next s.appending _ s.head xs x rest v y e (λ c. ground arith) s.place w,
)

link-Holds : (a : ℕ) (s : State) (xs : List ℕ) → Holds s xs → Holds (store_next a s) xs
unfolding store_next
link-Holds a s xs (z, d, t, w) = elim (Bool-cases (s.appending a == null)) [
  | inl e ↦ rw e (z, d, t, w)
  | inr e ↦ rw e (
    z,
    d,
    t,
    Standing-store s.next s.appending _ _ s.head xs a e (λ c. ground arith) (λ c. ground arith)
        s.place w,
  )
]

call-Holds :
    (b : Bool) (q : Place) (s : State) (xs : List ℕ)
    → s.place ≡ q
    → Holds s xs
    → Holds (call_from b q s) xs
call-Holds b (returned r) s xs e (z, d, t, w) = (z, d, t, rw e at w)
call-Holds b _ s xs e w = w

-- Every step keeps the invariant, and what was there or is appended is taken or stays, in order.
pub step-Holds :
    (e : Event) (s : State) (xs : List ℕ)
    → Holds s xs
    → Allowed e s xs
    → Holds (step e s) (after e s xs) × (xs ++ appended e ≡ taken e s ++ after e s xs)
unfolding step
step-Holds (append x rest) s xs w a = (append-Holds x rest s xs w a, refl)
step-Holds (link k) s xs w a = (link-Holds k s xs w, append-nil xs)
step-Holds (node_init k) s xs (z, d, t, w) a = (
  (
    z,
    d,
    t,
    Standing-frame s.next s.appending _ s.appending s.head xs (λ c i. (ground arith, refl)) s.place
        w,
  ),
  append-nil xs,
)
step-Holds (call b) s xs w a = (call-Holds b s.place s xs refl w, append-nil xs)
step-Holds go s xs w a = let r = dequeue-Takes s.place s xs w refl in (r.0, append-nil xs ∙ r.1)

unfoldable pub run : List Event → State → State
run [] s = s
run (e ∷ es) s = run es (step e s)

-- what the queue holds after them, all nodes appended by them, and all nodes returned
abbrev pub contents : List Event → State → List ℕ → List ℕ
contents [] s xs = xs
contents (e ∷ es) s xs = contents es (step e s) (after e s xs)

abbrev pub all_appended : List Event → List ℕ
all_appended [] = []
all_appended (e ∷ es) = appended e ++ all_appended es

abbrev pub all_taken : List Event → State → List ℕ
all_taken [] s = []
all_taken (e ∷ es) s = taken e s ++ all_taken es (step e s)

abbrev pub AllAllowed : List Event → State → List ℕ → Type 0
AllAllowed [] s xs = true ≡ true
AllAllowed (e ∷ es) s xs = Allowed e s xs × AllAllowed es (step e s) (after e s xs)

-- In any interleaving of appends, stores of their links and steps of the dequeuer, the nodes that
-- the dequeues return, followed by those that the queue holds at the end, are those that it held at
-- first, followed by those appended in the order of their exchanges; and the links and the tail
-- represent what it holds.
pub run-fifo :
    (es : List Event) (s : State) (xs : List ℕ)
    → Holds s xs
    → AllAllowed es s xs
    → Holds (run es s) (contents es s xs)
      × (xs ++ all_appended es ≡ all_taken es s ++ contents es s xs)
unfolding run
run-fifo [] s xs w a = (w, append-nil xs)
run-fifo (e ∷ es) s xs w (a, b) =
    let r = step-Holds e s xs w a in
    let q = run-fifo es (step e s) (after e s xs) r.0 b in
    (
      q.0,
      sym (append_assoc xs (appended e) (all_appended es))
          ∙ ap (λ l. l ++ all_appended es) r.1
          ∙ append_assoc (taken e s) (after e s xs) (all_appended es)
          ∙ ap (λ l. taken e s ++ l) q.1
          ∙ sym (
              append_assoc (taken e s) (all_taken es (step e s))
                (contents es (step e s) (after e s xs))),
    )
