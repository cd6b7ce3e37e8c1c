-- ===== src/WfStack.antt =====
-- The wait-free push, blocking pop stack of include/urcu/static/wfstack.h: any number of pushers and
-- the one thread that may pop, interleaved at their accesses of shared memory.
mod Invariant
mod Contents
mod Answers
mod Tests
use userspace_rcu.Prelude.{ℕ, Bool, true, false, not, List, [], ◌∷◌, ◌==◌, if◌then◌else◌, update}

abbrev pub null : ℕ
null = 0

-- CDS_WFS_END
abbrev pub end_mark : ℕ
end_mark = 1

-- `___cds_wfs_end`
abbrev pub is_end : ℕ → Bool
is_end node = node == end_mark

-- What the popper returns: for one node, with CDS_WFS_STATE_LAST, and for all, by the first.
pub data Answer : Type 0 where
  empty : Answer
  would_block : Answer
  node_of : (node : ℕ) (last : Bool) → Answer
  all_from : (head : ℕ) → Answer

-- Where the popper stands, before the access that the constructor names.
pub data Pop : Type 0 where
  returned : Answer → Pop
  load_head : (blocking : Bool) → Pop
  sync_next : (blocking : Bool) (head : ℕ) → Pop
  swap_head : (blocking : Bool) (head new_head : ℕ) → Pop
  take_all : Pop

-- `linking a` is the old head that the thread that has pushed `a` is about to store to `a->next`, or
-- NULL if no thread is.
pub record State : Type 0 where
  pub head : ℕ
  pub next : ℕ → ℕ
  pub linking : ℕ → ℕ
  pub popper : Pop

-- the exchange in `_cds_wfs_push`
unfoldable pub push : (node : ℕ) → State → State
push node s = record s { head = node; linking = update s.linking node s.head }

-- its store to `node->next`, if there is one to come
unfoldable pub store_link : (node : ℕ) → State → State
store_link node s = if s.linking node == null then s else record s {
  next = update s.next node (s.linking node);
  linking = update s.linking node null;
}

-- `___cds_wfs_node_sync_next`, one round: the next round or CDS_WFS_WOULDBLOCK if the link is not
-- there
abbrev pub node_sync_next :
    (next : ℕ) (blocking : Bool) (again blocked : Pop) (found : ℕ → Pop) → Pop
node_sync_next next blocking again blocked found =
    if next == null then (if blocking then again else blocked) else found next

-- `___cds_wfs_pop` and `___cds_wfs_pop_all` up to the next access
unfoldable pub pop : Pop → State → State
pop (returned r) s = s
pop (load_head b) s = record s {
  popper = if is_end s.head then returned empty else sync_next b s.head;
}
pop (sync_next b head) s = record s {
  popper =
      node_sync_next (s.next head) b (sync_next b head) (returned would_block) (swap_head b head);
}
pop (swap_head b head new_head) s =
    if s.head == head
    then record s { head = new_head; popper = returned (node_of head (is_end new_head)) }
    else record s { popper = if b then load_head true else returned would_block }
pop take_all s = record s {
  head = end_mark;
  popper = if is_end s.head then returned empty else returned (all_from s.head);
}

-- `_cds_wfs_pop_blocking` and `_cds_wfs_pop_all_blocking` hold the pop lock: a call begins only when
-- the one before it has returned.
abbrev pub is_resting : Pop → Bool
is_resting (returned r) = true
is_resting _ = false

-- A thread pushes, stores its link, or resets a node that it owns, or the popper calls or goes on.
pub data Event : Type 0 where
  call_push : (node : ℕ) → Event
  link : (node : ℕ) → Event
  node_init : (node : ℕ) → Event
  call_pop : (blocking : Bool) → Event
  call_pop_all : Event
  go : Event

unfoldable pub step : Event → State → State
step (call_push node) s = push node s
step (link node) s = store_link node s
step (node_init node) s = record s { next = update s.next node null }
step (call_pop b) s = if is_resting s.popper then record s { popper = load_head b } else s
step call_pop_all s = if is_resting s.popper then record s { popper = take_all } else s
step go s = pop s.popper s
