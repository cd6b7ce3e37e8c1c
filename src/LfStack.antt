-- ===== src/LfStack.antt =====
-- The lock-free stack of include/urcu/static/lfstack.h: any number of pushers and the one thread that
-- may pop, interleaved at their accesses of shared memory.
mod Invariant
mod Contents
mod Tests
use userspace_rcu.Prelude.{ℕ, Bool, true, false, not, List, [], ◌∷◌, ◌==◌, if◌then◌else◌, update}

abbrev pub null : ℕ
null = 0

-- `___cds_lfs_empty_head`
abbrev pub empty_head : ℕ → Bool
empty_head head = head == null

-- Where a pusher stands: `pushing node head` is before the cmpxchg that expects `head`. The store to
-- `node->next` before it is to private memory, and is made with it.
pub data Push : Type 0 where
  pushed : (was_not_empty : Bool) → Push
  pushing : (node head : ℕ) → Push

-- Where the popper stands, before the access that the constructor names. It has popped one node, or
-- NULL, or all nodes, as a list that starts at `head`.
pub data Pop : Type 0 where
  popped : (node : ℕ) → Pop
  popped_all : (head : ℕ) → Pop
  load_head : Pop
  load_next : (head : ℕ) → Pop
  swap_head : (head next_head : ℕ) → Pop
  take_all : Pop

pub record State : Type 0 where
  pub head : ℕ
  pub next : ℕ → ℕ
  pub pusher : ℕ → Push
  pub popper : Pop

-- `_cds_lfs_push` begins
unfoldable pub begin_push : (i node : ℕ) → State → State
begin_push i node s = record s { pusher = update s.pusher i (pushing node null) }

-- a round of its loop, of the thread `i` that stands there
unfoldable pub push : (i : ℕ) → Push → State → State
push i (pushed b) s = s
push i (pushing node old_head) s =
    if s.head == old_head
    then record s {
      next = update s.next node old_head;
      head = node;
      pusher = update s.pusher i (pushed (not (empty_head old_head)));
    }
    else record s {
      next = update s.next node old_head;
      pusher = update s.pusher i (pushing node s.head);
    }

-- `___cds_lfs_pop` and `___cds_lfs_pop_all` up to the next access
unfoldable pub pop : Pop → State → State
pop (popped node) s = s
pop (popped_all head) s = s
pop load_head s = record s { popper = if empty_head s.head then popped null else load_next s.head }
pop (load_next head) s = record s { popper = swap_head head (s.next head) }
pop (swap_head head next_head) s =
    if s.head == head
    then record s { head = next_head; popper = popped head }
    else record s { popper = load_head }
pop take_all s = record s { head = null; popper = popped_all s.head }

-- `_cds_lfs_pop_blocking` and `_cds_lfs_pop_all_blocking` hold the pop lock: a call begins only when
-- the one before it has returned.
abbrev pub is_resting : Pop → Bool
is_resting (popped node) = true
is_resting (popped_all head) = true
is_resting _ = false

pub data Event : Type 0 where
  call_push : (i node : ℕ) → Event
  go_push : (i : ℕ) → Event
  call_pop : Event
  call_pop_all : Event
  go_pop : Event

unfoldable pub step : Event → State → State
step (call_push i node) s = begin_push i node s
step (go_push i) s = push i (s.pusher i) s
step call_pop s = if is_resting s.popper then record s { popper = load_head } else s
step call_pop_all s = if is_resting s.popper then record s { popper = take_all } else s
step go_pop s = pop s.popper s
