-- ===== src/Defer/History.antt =====
-- A whole history of one thread's queue.
use mathlib.Core.Path.{ap₂}
use native.Mathlib.Decide.{dec_lt}
use userspace_rcu.Prelude.{
  ℕ, ◌≡◌, refl, List, [], ◌∷◌, ◌++◌, map, some, ap, ◌∙◌, sym, arith, length, ◌-◌, append_assoc,
  append-nil,
}
use userspace_rcu.Defer.{
  Callback, Queue, Act, call, synchronize_rcu, defer_queue_size, defer_rcu, defer_all, calls_of,
}
use userspace_rcu.Defer.Ring.{Holds}
use userspace_rcu.Defer.Order.{reclaim, barrier-reclaim, defer_rcu-append, defer_rcu-reclaim}

calls_of-map : (cs : List Callback) → calls_of (map call cs) ≡ cs
calls_of-map [] = refl
calls_of-map (c ∷ cs) = ap (λ l. c ∷ l) (calls_of-map cs)

calls_of-reclaim : (cs : List Callback) → calls_of (reclaim cs) ≡ cs
calls_of-reclaim [] = refl
calls_of-reclaim (c ∷ cs) = ap (λ l. c ∷ l) (calls_of-map cs)

calls_of-append : (a b : List Act) → calls_of (a ++ b) ≡ calls_of a ++ calls_of b
calls_of-append [] b = refl
calls_of-append (synchronize_rcu ∷ a) b = calls_of-append a b
calls_of-append (call c ∷ a) b = ap (λ l. c ∷ l) (calls_of-append a b)

-- one request, and then the others
defer_all-cons :
    (c : Callback) (rs : List Callback) (d : Queue) {d₁ d₂ : Queue} {a b : List Act}
    → defer_rcu c d ≡ some (a, d₁)
    → defer_all rs d₁ ≡ some (b, d₂)
    → defer_all (c ∷ rs) d ≡ some (a ++ b, d₂)
unfolding defer_all
defer_all-cons c rs d e f = rw (e, f)

-- However many callbacks a thread queues behind those that its queue holds, and however often the
-- ring fills up and its indices wrap: once it has waited for them, every callback has been called
-- once, in the order of queueing, no assertion has failed, and the queue is empty.
pub defer_all-in_order :
    (rs : List Callback) (d : Queue) (ws : List ℕ) (cs : List Callback)
    → Holds d ws cs
    → (acts : List Act) × (d' : Queue) × (defer_all rs d ≡ some (acts, d'))
      × (calls_of acts ≡ cs ++ rs)
      × Holds d' [] []
unfolding defer_all
defer_all-in_order [] d ws cs h =
    let (d', run, empty, _) = barrier-reclaim d ws cs h in
    (reclaim cs, d', run, calls_of-reclaim cs ∙ sym (append-nil cs), empty)
defer_all-in_order (c ∷ rs) d ws cs h = elim (dec_lt (length ws) (defer_queue_size - 2)) [
  | yes room ↦
      let (d₁, ws₁, run, h₁) = defer_rcu-append c d ws cs h room in
      let (acts, d₂, rest, same, empty) = defer_all-in_order rs d₁ ws₁ (cs ++ c ∷ []) h₁ in
      (acts, d₂, defer_all-cons c rs d run rest, same ∙ append_assoc cs (c ∷ []) rs, empty)
  | no full ↦
      let (d₁, ws₁, run, h₁) = defer_rcu-reclaim c d ws cs h (omega arith) in
      let (acts, d₂, rest, same, empty) = defer_all-in_order rs d₁ ws₁ (c ∷ []) h₁ in
      (
        reclaim cs ++ acts,
        d₂,
        defer_all-cons c rs d run rest,
        calls_of-append (reclaim cs) acts ∙ ap₂ ◌++◌ (calls_of-reclaim cs) same,
        empty,
      )
]
