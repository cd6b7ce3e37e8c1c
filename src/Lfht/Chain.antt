-- ===== src/Lfht/Chain.antt =====
-- The list of all nodes of a hash table, and the operations on it, interleaved at their accesses of
-- the words `next`: src/rculfhash.c. An operation gets its bucket, the node of the table that
-- `lookup_bucket` names, with its call.
mod Reach
mod Chained
mod Invariant
mod Writes
mod Frame
mod Reads
mod Step
mod Go
mod Run
mod Removal
mod Collect
mod Lookup
mod Contents
mod Tests
use userspace_rcu.Prelude.{ℕ, Bool, true, false, not, ◌&&◌, ◌==◌, ltb, if◌then◌else◌, update}
use userspace_rcu.Lfht.Place.{
  Answer, Caller, Keys, Mode, Place, State, Then, add_duplicate, add_first, add_gc, add_insert,
  add_next, added, by_add_replace, by_replace, del_flag, del_load, del_own, del_own_load, deleted,
  duplicates, found, gc_first, gc_next, gc_swap, invalid, is_table, is_unique, key_of, lookup_first,
  lookup_next, missing, move, nothing, own, present, replace_swap, replaced, replaced_node,
  replacing, return_replaced, returned, swap, table, unique,
}
use userspace_rcu.Lfht.Links.{
  Link, is_end, clear_flag, flag_bucket, flag_removed, flag_removal_owner,
  flag_removed_or_removal_owner, same, keep_bucket,
}

-- `_cds_lfht_replace` returns -ENOENT, and `cds_lfht_add_replace` then tries again
unfoldable pub replace_failed : Caller → (bucket new_node : ℕ) → Place
replace_failed by_replace b node = returned (replaced false)
replace_failed (by_add_replace key) b node = add_first (replacing key) b node

-- the head of the loop of `_cds_lfht_replace`
unfoldable pub replace_look : Caller → (bucket old_node : ℕ) → Link → (new_node : ℕ) → Place
unfolding replace_failed
replace_look c b old old_next node =
    if old_next.removed then replace_failed c b node else replace_swap c b old old_next node

-- `_cds_lfht_add` has found a duplicate
unfoldable pub found_duplicate : Mode → (bucket node d_node : ℕ) → Link → Place
unfolding replace_look
found_duplicate (replacing key) b node d next = replace_look (by_add_replace key) b d next node
found_duplicate m b node d next = returned (present d)

unfoldable pub after_gc : Then → (node : ℕ) → Place
after_gc own node = del_own_load node
after_gc (return_replaced by_replace old) node = returned (replaced true)
after_gc (return_replaced (by_add_replace key) old) node = returned (replaced_node old)

-- `_cds_lfht_add` puts its node in between `iter_prev` and the node after it
unfoldable pub insert : (i : ℕ) → Mode → (bucket node iter_prev : ℕ) → Link → State → State
insert i m b node prev iter s =
    swap i prev iter (keep_bucket iter node) (returned added) (add_first m b node) (record s {
      next =
          update s.next node
            (if is_table m then flag_bucket (clear_flag iter.to) else clear_flag iter.to);
    })

-- `_cds_lfht_del` has loaded the word of its node
unfoldable pub del_read : (bucket node : ℕ) → Link → Place
del_read b node next = if next.removed then returned (deleted false) else del_flag b node

unfoldable pub delete : (i bucket node : ℕ) → State → State
delete i b node s = record s {
  next = update s.next node (flag_removed (s.next node));
  at = update s.at i (gc_first own b node);
}

-- its exchange, after which it returns 0 if it owns the node
unfoldable pub take_ownership : (i node : ℕ) → Link → State → State
take_ownership i node next s = record s {
  next = update s.next node next;
  at = update s.at i (returned (deleted (not (s.next node).owner)));
}

-- a round of the loop of `_cds_lfht_replace`
unfoldable pub replace_node :
    (i : ℕ) → Caller → (bucket old_node : ℕ) → Link → (new_node : ℕ) → State → State
unfolding replace_look
replace_node i c b old old_next node s =
    swap i old old_next (flag_removed_or_removal_owner (clear_flag node))
      (gc_first (return_replaced c old) b node) (replace_look c b old (s.next old) node)
      (record s { next = update s.next node old_next })

module _ (k : Keys) where
  -- the tests before a load in the loop of `_cds_lfht_add`
  unfoldable pub add_look : Mode → (bucket node iter_prev : ℕ) → Link → Place
  add_look m b node prev iter =
      if is_end iter.to
      then add_insert m b node prev iter
      else if ltb (k.reverse_hash node) (k.reverse_hash iter.to)
      then add_insert m b node prev iter
      else if is_table m && (k.reverse_hash iter.to == k.reverse_hash node)
      then add_insert m b node prev iter
      else add_next m b node prev iter

  -- the tests before a load in `cds_lfht_next_duplicate`, when `_cds_lfht_add` calls it
  unfoldable pub duplicate_look : Mode → (bucket node iter_prev : ℕ) → Link → (d_node : ℕ) → Place
  duplicate_look m b node prev iter d =
      if is_end d
      then add_insert m b node prev iter
      else if ltb (k.reverse_hash node) (k.reverse_hash d)
      then add_insert m b node prev iter
      else add_duplicate m b node prev iter d

  -- after the load of `next` in the loop of `_cds_lfht_add`
  unfoldable pub add_read : Mode → (bucket node iter_prev : ℕ) → (iter next : Link) → Place
  unfolding add_look duplicate_look
  add_read m b node prev iter next =
      if next.removed
      then add_gc m b node prev iter next
      else if is_unique m && (not next.bucket && (k.reverse_hash iter.to == k.reverse_hash node))
      then duplicate_look m b node prev iter iter.to
      else add_look m b node iter.to next

  -- after the load in `cds_lfht_next_duplicate`
  unfoldable pub duplicate_read :
      Mode → (bucket node iter_prev : ℕ) → Link → (d_node : ℕ) → (next : Link) → Place
  unfolding duplicate_look found_duplicate
  duplicate_read m b node prev iter d next =
      if not next.removed && (not next.bucket && k.match d (key_of m))
      then found_duplicate m b node d next
      else duplicate_look m b node prev iter next.to

  -- the tests before a load in `_cds_lfht_gc_bucket`
  unfoldable pub gc_look : Then → (bucket node iter_prev : ℕ) → Link → Place
  unfolding after_gc
  gc_look c b node prev iter =
      if is_end iter.to
      then after_gc c node
      else if ltb (k.reverse_hash node) (k.reverse_hash iter.to)
      then after_gc c node
      else gc_next c b node prev iter

  unfoldable pub gc_read : Then → (bucket node iter_prev : ℕ) → (iter next : Link) → Place
  unfolding gc_look
  gc_read c b node prev iter next =
      if next.removed then gc_swap c b node prev iter next else gc_look c b node iter.to next

  -- the tests before a load in `cds_lfht_lookup`
  unfoldable pub lookup_look : (key reverse_hash node : ℕ) → Place
  lookup_look key h node =
      if is_end node
      then returned missing
      else if ltb h (k.reverse_hash node)
      then returned missing
      else lookup_next key h node

  unfoldable pub lookup_read : (key reverse_hash node : ℕ) → Link → Place
  unfolding lookup_look
  lookup_read key h node next =
      if not next.removed && (not next.bucket && ((k.reverse_hash node == h) && k.match node key))
      then returned (found node next)
      else lookup_look key h next.to

  -- The thread `i` makes the access that it stands before.
  unfoldable pub go : (i : ℕ) → Place → State → State
  unfolding add_look add_read duplicate_read gc_look gc_read lookup_look lookup_read insert del_read
      delete take_ownership replace_node
  go i (returned a) s = s
  go i (add_first m b node) s = move i (add_look m b node b (s.next b)) s
  go i (add_next m b node prev iter) s = move i (add_read m b node prev iter (s.next iter.to)) s
  go i (add_duplicate m b node prev iter d) s =
      move i (duplicate_read m b node prev iter d (s.next d)) s
  go i (add_insert m b node prev iter) s = insert i m b node prev iter s
  go i (add_gc m b node prev iter next) s =
      swap i prev iter (keep_bucket iter next.to) (add_first m b node) (add_first m b node) s
  go i (gc_first c b node) s = move i (gc_look c b node b (s.next b)) s
  go i (gc_next c b node prev iter) s = move i (gc_read c b node prev iter (s.next iter.to)) s
  go i (gc_swap c b node prev iter next) s =
      swap i prev iter (keep_bucket iter next.to) (gc_first c b node) (gc_first c b node) s
  go i (del_load b node) s = move i (del_read b node (s.next node)) s
  go i (del_flag b node) s = delete i b node s
  go i (del_own_load node) s = move i (del_own node (flag_removal_owner (s.next node))) s
  go i (del_own node next) s = take_ownership i node next s
  go i (replace_swap c b old old_next node) s = replace_node i c b old old_next node s
  go i (lookup_first key h b) s = move i (lookup_look key h (s.next b).to) s
  go i (lookup_next key h node) s = move i (lookup_read key h node (s.next node)) s

abbrev pub is_resting : Place → Bool
is_resting (returned a) = true
is_resting _ = false

-- The operations, with the bucket of their hash. A replacement has the iterator of an earlier lookup.
pub data Call : Type 0 where
  add : (mode : Mode) (bucket node : ℕ) → Call
  replace : (bucket old_node : ℕ) (old_next : Link) (key new_node : ℕ) → Call
  del : (bucket node : ℕ) → Call
  lookup : (key reverse_hash bucket : ℕ) → Call

-- what an operation does before its first access
unfoldable pub begin : Keys → Call → Place
unfolding replace_look
begin k (add m b node) = add_first m b node
begin k (replace b old old_next key node) =
    if is_end old
    then returned (replaced false)
    else if not (k.reverse_hash old == k.reverse_hash node)
    then returned invalid
    else if not (k.match old key)
    then returned invalid
    else replace_look by_replace b old old_next node
begin k (del b node) = if is_end node then returned (deleted false) else del_load b node
begin k (lookup key h b) = lookup_first key h b

-- A thread calls an operation, or makes its next access.
pub data Event : Type 0 where
  call : (i : ℕ) → Call → Event
  access : (i : ℕ) → Event

unfoldable pub step : Keys → Event → State → State
unfolding go begin
step k (call i c) s = if is_resting (s.at i) then move i (begin k c) s else s
step k (access i) s = go k i (s.at i) s
