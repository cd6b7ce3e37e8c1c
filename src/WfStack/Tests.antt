-- ===== src/WfStack/Tests.antt =====
-- Runs of the stack.
use userspace_rcu.Prelude.{◌≡◌, refl, true, false, List, [], ◌∷◌, arith, inl, update}
use userspace_rcu.WfStack.{
  empty, node_of, returned, swap_head, State, push, store_link, pop, Event, call_push, link,
  call_pop, go, step,
}
use userspace_rcu.WfStack.Invariant.{Holds}
use userspace_rcu.WfStack.Contents.{run, run-represents}

-- an empty stack
abbrev fresh : State
fresh = record { head = 1; next = λ a. 0; linking = λ a. 0; popper = returned empty }

fresh-Holds : Holds fresh []
fresh-Holds = (refl, refl, refl, refl)

-- Two pushes, the second of which is not complete when a pop that may not block looks, and is when
-- the next one does.
abbrev unfinished : List Event
unfinished =
    call_push 5
    ∷ call_push 7
    ∷ link 5
    ∷ call_pop false
    ∷ go
    ∷ go
    ∷ link 7
    ∷ call_pop true
    ∷ go
    ∷ go
    ∷ go
    ∷ []

unfinished_popped : (run unfinished fresh).popper ≡ returned (node_of 7 false)
unfolding run step push store_link pop
unfinished_popped = refl

run-represents_example : Holds (run unfinished fresh) (5 ∷ [])
unfolding run step push store_link pop
run-represents_example = run-represents unfinished fresh [] fresh-Holds (
  (refl, ground arith, ground arith, refl, refl),
  (
    (refl, ground arith, ground arith, refl, refl),
    (refl, (refl, (refl, (refl, (refl, (refl, (refl, (refl, (refl, refl))))))))),
  ),
)

-- one node, before the cmpxchg
abbrev one_node : State
one_node = record {
  head = 5;
  next = update (λ a. 0) 5 1;
  linking = λ a. 0;
  popper = swap_head true 5 1;
}

one_node-Holds : Holds one_node (5 ∷ [])
one_node-Holds =
    (refl, refl, (ground arith, ground arith, inl (refl, refl), refl), (refl, refl, ground arith))
