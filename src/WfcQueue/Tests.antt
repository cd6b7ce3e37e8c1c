-- ===== src/WfcQueue/Tests.antt =====
-- Runs of the queue.
use userspace_rcu.Prelude.{◌≡◌, refl, true, false, List, [], ◌∷◌, ◌++◌, arith, replicate}
use userspace_rcu.WfcQueue.{
  empty, would_block, node_of, returned, swing_tail, State, exchange_tail, store_next, dequeue,
  Event, append, link, call, go, step,
}
use userspace_rcu.WfcQueue.Invariant.{Holds}
use userspace_rcu.WfcQueue.Fifo.{run, all_appended, all_taken, run-fifo}
use userspace_rcu.WfcQueue.Answers.{answer-exact, dequeue-answers, has_returned, ExactAt}

-- an empty queue with the head node 9
abbrev fresh : State
fresh = record { head = 9; next = λ a. 0; tail = 9; appending = λ a. 0; place = returned empty }

fresh-Holds : Holds fresh []
fresh-Holds = (ground arith, refl, refl, (refl, refl))

-- Two threads append, the second before the first has stored its link; a dequeue that may not block
-- gives up, and the next one returns the first node.
abbrev overtaken : List Event
overtaken =
    append 1 []
    ∷ append 2 []
    ∷ link 1
    ∷ call false
    ∷ go
    ∷ go
    ∷ go
    ∷ link 9
    ∷ call false
    ∷ go
    ∷ go
    ∷ go
    ∷ go
    ∷ []

overtaken_answer : (run overtaken fresh).place ≡ returned (node_of 1 false)
unfolding run step exchange_tail store_next dequeue
overtaken_answer = refl

gave_up :
    (run (append 1 [] ∷ append 2 [] ∷ link 1 ∷ call false ∷ go ∷ go ∷ go ∷ []) fresh).place
    ≡ returned would_block
unfolding run step exchange_tail store_next dequeue
gave_up = refl

run-fifo_example :
    Holds (run overtaken fresh) (2 ∷ [])
    × (all_appended overtaken ≡ all_taken overtaken fresh ++ 2 ∷ [])
unfolding run step exchange_tail store_next dequeue
run-fifo_example = run-fifo overtaken fresh [] fresh-Holds (
  (ground arith, refl, (refl, refl)),
  (
    (ground arith, refl, (refl, refl)),
    (refl, (refl, (refl, (refl, (refl, (refl, (refl, (refl, (refl, (refl, (refl, refl))))))))))),
  ),
)

-- one node, before the exchange of the tail
abbrev alone : State
alone = record { head = 9; next = λ a. 0; tail = 1; appending = λ a. 0; place = swing_tail true 1 }

alone-Holds : Holds alone (1 ∷ [])
alone-Holds = (ground arith, refl, refl, ((refl, ground arith, refl, (refl, refl)), refl))

answer-exact_example : ExactAt (swing_tail true 1) (step go alone).place (1 ∷ [])
answer-exact_example = answer-exact alone (1 ∷ []) alone-Holds

dequeue-answers_example : has_returned (run (replicate 8 go) alone).place ≡ true
dequeue-answers_example = dequeue-answers alone (1 ∷ []) alone-Holds (λ a. refl)
