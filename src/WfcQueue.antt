-- ===== src/WfcQueue.antt =====
-- The wait-free enqueue, blocking dequeue queue of include/urcu/static/wfcqueue.h: any number of
-- appenders and the one thread that may dequeue, interleaved at their accesses of shared memory.
mod Segment
mod Invariant
mod Dequeue
mod Fifo
mod Answers
mod Tests
use userspace_rcu.Prelude.{
  ℕ, Bool, true, false, not, List, [], ◌∷◌, ◌++◌, ◌==◌, if◌then◌else◌, update, Option, none, some,
}
use userspace_rcu.Prelude.{last_from}

abbrev pub null : ℕ
null = 0

-- what `___cds_wfcq_dequeue_with_state` returns; `last` is CDS_WFCQ_STATE_LAST
pub data Answer : Type 0 where
  empty : Answer
  would_block : Answer
  node_of : (node : ℕ) (last : Bool) → Answer

-- Where the dequeuer stands: before the access that the constructor names.
pub data Place : Type 0 where
  returned : Answer → Place
  load_head : (blocking : Bool) → Place  -- `head->node.next` in `_cds_wfcq_empty`
  load_tail : (blocking : Bool) → Place  -- `tail->p` in `_cds_wfcq_empty`
  sync_head : (blocking : Bool) → Place  -- `___cds_wfcq_node_sync_next(&head->node)`
  load_next : (blocking : Bool) (node : ℕ) → Place
  clear_head : (blocking : Bool) (node : ℕ) → Place
  swing_tail : (blocking : Bool) (node : ℕ) → Place  -- the cmpxchg
  sync_next : (blocking : Bool) (node : ℕ) → Place
  restore_head : (node : ℕ) → Place
  advance_head : (node next : ℕ) → Place

-- The queue whose head node is `head`. `appending a` is the node that the thread whose exchange of
-- the tail gave it `a` is about to store to `a->next`, or NULL if no thread is.
pub record State : Type 0 where
  pub head : ℕ
  pub next : ℕ → ℕ
  pub tail : ℕ
  pub appending : ℕ → ℕ
  pub place : Place

-- The exchange in `___cds_wfcq_append`; `_cds_wfcq_enqueue` has the same node twice.
unfoldable pub exchange_tail : (new_head new_tail : ℕ) → State → State
exchange_tail new_head new_tail s = record s {
  tail = new_tail;
  appending = update s.appending s.tail new_head;
}

-- Its store to `old_tail->next`, if there is one to come.
unfoldable pub store_next : (old_tail : ℕ) → State → State
store_next old_tail s = if s.appending old_tail == null then s else record s {
  next = update s.next old_tail (s.appending old_tail);
  appending = update s.appending old_tail null;
}

-- `___cds_wfcq_append` returns whether the queue was not empty.
unfoldable pub was_not_empty : State → Bool
was_not_empty s = not (s.tail == s.head)

-- `___cds_wfcq_node_sync_next`, one round: whether the loaded link ends the wait, and in case it
-- does not, the next round or CDS_WFCQ_WOULDBLOCK
abbrev pub node_sync_next :
    (next : ℕ) (blocking : Bool) (again blocked : Place) (found : ℕ → Place) → Place
node_sync_next next blocking again blocked found =
    if next == null then (if blocking then again else blocked) else found next

-- `___cds_wfcq_dequeue_with_state` up to the next access
unfoldable pub dequeue : Place → State → State
dequeue (returned r) s = s
dequeue (load_head b) s = record s {
  place = if s.next s.head == null then load_tail b else sync_head b;
}
dequeue (load_tail b) s = record s {
  place = if s.tail == s.head then returned empty else sync_head b;
}
dequeue (sync_head b) s = record s {
  place = node_sync_next (s.next s.head) b (sync_head b) (returned would_block) (load_next b);
}
dequeue (load_next b node) s = record s {
  place = if s.next node == null then clear_head b node else advance_head node (s.next node);
}
dequeue (clear_head b node) s = record s {
  next = update s.next s.head null;
  place = swing_tail b node;
}
dequeue (swing_tail b node) s =
    if s.tail == node
    then record s { tail = s.head; place = returned (node_of node true) }
    else record s { place = sync_next b node }
dequeue (sync_next b node) s = record s {
  place = node_sync_next (s.next node) b (sync_next b node) (restore_head node) (advance_head node);
}
dequeue (restore_head node) s = record s {
  next = update s.next s.head node;
  place = returned would_block;
}
dequeue (advance_head node next) s = record s {
  next = update s.next s.head next;
  place = returned (node_of node false);
}

-- A thread appends the nodes `x ∷ rest`, stores its link, or resets a node that it owns, or the
-- dequeuer calls or goes on.
pub data Event : Type 0 where
  append : (x : ℕ) (rest : List ℕ) → Event
  link : (old_tail : ℕ) → Event
  node_init : (node : ℕ) → Event  -- the owner's `_cds_wfcq_node_init`
  call : (blocking : Bool) → Event
  go : Event

-- The blocking and the nonblocking dequeues differ in the flag alone; the caller excludes others, so
-- that a call begins only when the one before it has returned.
abbrev pub call_from : Bool → Place → State → State
call_from b (returned r) s = record s { place = load_head b }
call_from b _ s = s

unfoldable pub step : Event → State → State
step (append x rest) s = exchange_tail x (last_from x rest) s
step (link a) s = store_next a s
step (node_init a) s = record s { next = update s.next a null }
step (call b) s = call_from b s.place s
step go s = dequeue s.place s

-- the node that a step of the dequeuer takes off the queue, as the answer that it then returns says
abbrev answer_nodes : Place → List ℕ
answer_nodes (returned (node_of node l)) = node ∷ []
answer_nodes _ = []

abbrev pub taken_from : Place → State → List ℕ
taken_from (returned r) s = []
taken_from p s = answer_nodes (dequeue p s).place

abbrev pub taken : Event → State → List ℕ
taken go s = taken_from s.place s
taken _ s = []

abbrev pub appended : Event → List ℕ
appended (append x rest) = x ∷ rest
appended _ = []
