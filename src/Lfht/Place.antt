-- ===== src/Lfht/Place.antt =====
-- Where the threads stand that use the list of the hash table of src/rculfhash.c, and what they share.
use userspace_rcu.Prelude.{ℕ, Bool, true, false, if◌then◌else◌, update}
use userspace_rcu.Lfht.Links.{Link, same}

-- What the callers give: the reverse of a node's hash, which the call that adds the node stores in
-- it, and the function `match`. `in_table` says which nodes are those of the tables of buckets.
pub record Keys : Type 0 where
  pub reverse_hash : ℕ → ℕ
  pub match : (node key : ℕ) → Bool
  pub in_table : ℕ → Bool

-- The modes of `_cds_lfht_add`: for `cds_lfht_add`, `cds_lfht_add_unique`, `cds_lfht_add_replace` and
-- `init_table_populate_partition`.
pub data Mode : Type 0 where
  duplicates : Mode
  unique : (key : ℕ) → Mode
  replacing : (key : ℕ) → Mode
  table : Mode

-- the callers of `_cds_lfht_replace`
pub data Caller : Type 0 where
  by_replace : Caller
  by_add_replace : (key : ℕ) → Caller

-- what is done after `_cds_lfht_gc_bucket`: `_cds_lfht_del` goes on, `_cds_lfht_replace` returns
pub data Then : Type 0 where
  own : Then
  return_replaced : (caller : Caller) (old_node : ℕ) → Then

pub data Answer : Type 0 where
  nothing : Answer
  added : Answer
  present : (node : ℕ) → Answer
  deleted : (won : Bool) → Answer
  replaced : (won : Bool) → Answer
  replaced_node : (node : ℕ) → Answer
  invalid : Answer
  found : (node : ℕ) (next : Link) → Answer
  missing : Answer

-- Where a thread stands, before the access that the constructor names.
pub data Place : Type 0 where
  returned : Answer → Place
  add_first : (mode : Mode) (bucket node : ℕ) → Place
  add_next : (mode : Mode) (bucket node iter_prev : ℕ) (iter : Link) → Place
  add_duplicate : (mode : Mode) (bucket node iter_prev : ℕ) (iter : Link) (d_node : ℕ) → Place
  add_insert : (mode : Mode) (bucket node iter_prev : ℕ) (iter : Link) → Place
  add_gc : (mode : Mode) (bucket node iter_prev : ℕ) (iter next : Link) → Place
  gc_first : (cont : Then) (bucket node : ℕ) → Place
  gc_next : (cont : Then) (bucket node iter_prev : ℕ) (iter : Link) → Place
  gc_swap : (cont : Then) (bucket node iter_prev : ℕ) (iter next : Link) → Place
  del_load : (bucket node : ℕ) → Place
  del_flag : (bucket node : ℕ) → Place
  del_own_load : (node : ℕ) → Place
  del_own : (node : ℕ) (next : Link) → Place
  replace_swap : (caller : Caller) (bucket old_node : ℕ) (old_next : Link) (new_node : ℕ) → Place
  lookup_first : (key reverse_hash bucket : ℕ) → Place
  lookup_next : (key reverse_hash node : ℕ) → Place

pub record State : Type 0 where
  pub next : ℕ → Link
  pub at : ℕ → Place

abbrev pub is_table : Mode → Bool
is_table table = true
is_table _ = false

-- `unique_ret` is given
abbrev pub is_unique : Mode → Bool
is_unique (unique key) = true
is_unique (replacing key) = true
is_unique _ = false

abbrev pub key_of : Mode → ℕ
key_of (unique key) = key
key_of (replacing key) = key
key_of _ = 0

abbrev pub move : (i : ℕ) → Place → State → State
move i q s = record s { at = update s.at i q }

-- `uatomic_cmpxchg` of a word `next`: the place that follows is `yes_place` if it wrote
abbrev pub swap : (i p : ℕ) (expected new : Link) (yes_place no_place : Place) → State → State
swap i p expected new y z s =
    if same (s.next p) expected
    then record s { next = update s.next p new; at = update s.at i y }
    else record s { at = update s.at i z }
