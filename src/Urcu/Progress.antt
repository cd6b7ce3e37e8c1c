-- ===== src/Urcu/Progress.antt =====
-- The updater comes to its end once nobody is in a critical section.
use userspace_rcu.Prelude.{ℕ, ◌≡◌, true, List, has, replicate}
use userspace_rcu.Urcu.Reader.{nest}
use userspace_rcu.Urcu.Updater.{Pass, idle, State, input}
use userspace_rcu.Urcu.System.{update_side, run}

-- no thread is in a critical section
abbrev pub Quiet : State → Type 0
Quiet s = (i : ℕ) → nest (s.thread i).ctr ≡ 0

-- after some steps of its own the updater is outside of `synchronize_rcu`
abbrev pub Ends : State → Type 0
Ends s = (k : ℕ) × ((run (replicate k update_side) s).place ≡ idle)

-- the readers that the scan still has to look at
abbrev input_of : Pass → State → List ℕ
input_of p s = input p s.registry s.cur_snap_readers

abbrev Covered : Pass → State → List ℕ → Type 0
Covered p s todo = (j : ℕ) → has j (input_of p s) ≡ true → has j todo ≡ true
