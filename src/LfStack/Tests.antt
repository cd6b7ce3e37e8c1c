-- ===== src/LfStack/Tests.antt =====
-- Runs of the stack.
use userspace_rcu.Prelude.{◌≡◌, refl, false, List, [], ◌∷◌, arith, update}
use userspace_rcu.LfStack.{
  null, pushed, pushing, popped, swap_head, State, begin_push, push, pop, Event, call_push, go_push,
  call_pop, go_pop, step,
}
use userspace_rcu.LfStack.Invariant.{Holds, private-update, Private-started}
use userspace_rcu.LfStack.Contents.{run, after, run-lifo, Told, popper-answers}

-- an empty stack
abbrev fresh : State
fresh = record { head = 0; next = λ a. 0; pusher = λ i. pushed false; popper = popped 0 }

fresh-Holds : Holds fresh []
fresh-Holds = (refl, refl, ((λ i. refl), (λ i j ne e. refl), (λ i. refl)), refl)

-- Two threads push 5 and 7, the second between the rounds of the first, and one pops.
abbrev crossing : List Event
crossing =
    call_push 1 5
    ∷ call_push 2 7
    ∷ go_push 2
    ∷ go_push 1
    ∷ go_push 1
    ∷ call_pop
    ∷ go_pop
    ∷ go_pop
    ∷ go_pop
    ∷ []

crossing_popped : (run crossing fresh).popper ≡ popped 5
unfolding run step begin_push push pop
crossing_popped = refl

run-lifo_example : Holds (run crossing fresh) (7 ∷ [])
unfolding run step begin_push push pop
run-lifo_example = run-lifo crossing fresh [] fresh-Holds (
  (refl, ground arith, refl, (λ j. ground arith)),
  (
    (
      refl,
      ground arith,
      refl,
      (λ j. ground (arith, private-update fresh.pusher 1 (pushing 5 null) j)),
    ),
    (refl, (refl, (refl, (refl, (refl, (refl, (refl, refl))))))),
  ),
)

-- the node 5 on the stack, the popper before its cmpxchg, and a thread that pushes 7
abbrev one_node : State
one_node = record {
  head = 5;
  next = λ a. 0;
  pusher = update (λ i. pushed false) 2 (pushing 7 0);
  popper = swap_head 5 0;
}

one_node-Holds : Holds one_node (5 ∷ [])
one_node-Holds = (
  (refl, ground arith, refl),
  refl,
  Private-started (λ i. pushed false) 2 (pushing 7 0) (5 ∷ [])
      ((λ i. refl), (λ i j ne e. refl), (λ i. refl)) refl refl (λ j. ground arith),
  (refl, refl),
)

popper-answers_example :
    Told
      (swap_head 5 0)
      (step go_pop one_node).popper
      one_node.next
      (5 ∷ [])
      (after go_pop one_node (5 ∷ []))
popper-answers_example = popper-answers one_node (5 ∷ []) one_node-Holds
