-- ===== src/GpWait/Owners.antt =====
-- Whose the nodes on `gp_waiters` and on the local queues of `synchronize_rcu` are: src/urcu.c.
use userspace_rcu.Prelude.{
  ℕ, suc, ◌≤◌, ◌<◌, ◌≡◌, Bool, true, false, not, ◌&&◌, ◌||◌, ◌==◌, if◌then◌else◌, Option, none,
  some, List, [], has, is_empty, distinct,
}
use userspace_rcu.GpWait.Queue.{
  Place, waiting, leading, locking, moving, starting, grace, unlocking, waking, returned, Owner,
  nobody, in_queue, of, State,
}

abbrev pub batch : Place → List ℕ
batch (starting l) = l
batch (grace l) = l
batch (unlocking l) = l
batch (waking l) = l
batch _ = []

-- the first in the queue, before it moves the queue
abbrev pub is_first : Place → Bool
is_first leading = true
is_first locking = true
is_first moving = true
is_first _ = false

-- behind that
abbrev pub is_serving : Place → Bool
is_serving (starting l) = true
is_serving (grace l) = true
is_serving (unlocking l) = true
is_serving (waking l) = true
is_serving _ = false

abbrev pub is_locked : Place → Bool
is_locked moving = true
is_locked (starting l) = true
is_locked (grace l) = true
is_locked (unlocking l) = true
is_locked _ = false

-- behind `urcu_wait_set_state`
abbrev pub is_set : Place → Bool
is_set locking = true
is_set moving = true
is_set p = is_serving p

abbrev pub is_grace : Place → Bool
is_grace (grace l) = true
is_grace _ = false

abbrev pub is_waiting : Place → Bool
is_waiting waiting = true
is_waiting _ = false

abbrev pub is_owned : Owner → Bool
is_owned nobody = false
is_owned _ = true

abbrev pub is_queued : Owner → Bool
is_queued in_queue = true
is_queued _ = false

abbrev pub is_of : ℕ → Owner → Bool
is_of i (of k) = i == k
is_of i _ = false

abbrev pub holds : ℕ → Option ℕ → Bool
holds i none = false
holds i (some k) = i == k

-- Calls that were queued when fewer grace periods than this had started have one of their own under
-- way, or over.
abbrev pub limit : Place → (started ended : ℕ) → ℕ
limit (grace l) a e = a
limit (unlocking l) a e = e
limit (waking l) a e = e
limit returned a e = e
limit _ a e = suc a

pub record Inv (s : State) : Type 0 where
  pub queued : (j : ℕ) → has j s.queue ≡ is_queued (s.owner j)
  pub batched : (i j : ℕ) → has j (batch (s.place i)) ≡ is_of i (s.owner j)
  pub once : distinct s.queue ≡ true
  pub each : (i : ℕ) → distinct (batch (s.place i)) ≡ true
  pub member :
      (j : ℕ)
      → is_owned (s.owner j) ≡ true
      → ((is_waiting (s.place j) && not (s.woken j))
          || is_first (s.place j)
          || is_serving (s.place j))
        ≡ true
  pub first_queued : (j : ℕ) → is_first (s.place j) ≡ true → s.owner j ≡ in_queue
  pub self :
      (j : ℕ)
      → is_serving (s.place j) ≡ true
      → is_owned (s.owner j) ≡ true
      → is_of j (s.owner j) ≡ true
  pub one_first : (j k : ℕ) → is_first (s.place j) ≡ true → is_first (s.place k) ≡ true → j ≡ k
  pub has_first : is_empty s.queue ≡ false → (k : ℕ) × (is_first (s.place k) ≡ true)
  pub kept :
      (j : ℕ) → is_waiting (s.place j) ≡ true → s.woken j ≡ false → is_owned (s.owner j) ≡ true
  pub set_running : (j : ℕ) → is_set (s.place j) ≡ true → s.running j ≡ true
  pub not_running : (j : ℕ) → is_waiting (s.place j) ≡ true → s.running j ≡ false
  pub late : (i : ℕ) → s.since i < limit (s.place i) s.started s.ended
  pub late_batch :
      (i j : ℕ) → is_of i (s.owner j) ≡ true → s.since j < limit (s.place i) s.started s.ended
  pub late_woken : (j : ℕ) → is_waiting (s.place j) ≡ true → s.woken j ≡ true → s.since j < s.ended
  pub old : (j : ℕ) → s.since j ≤ s.started
  pub locked : (i : ℕ) → is_locked (s.place i) ≡ holds i s.lock
  pub free : s.lock ≡ none → s.started ≡ s.ended
  pub held :
      (i : ℕ)
      → is_locked (s.place i) ≡ true
      → s.started ≡ (if is_grace (s.place i) then suc s.ended else s.ended)
