-- ===== src/Lfht/Resize.antt =====
-- The requests to resize a hash table and the worker that serves them, interleaved at their accesses
-- of the table's fields: src/rculfhash.c. The worker is the one thread of the work queue. Allocation
-- does not fail, and what the passes do with the list of nodes is not part of this.
mod Served
mod Lost
mod Tests
use userspace_rcu.Prelude.{
  ℕ, ◌+◌, ◌-◌, ◌*◌, ◌%◌, ◌^◌, Bool, true, false, not, ◌&&◌, ◌==◌, ltb, leb, if◌then◌else◌, update,
  word, List, [], ◌∷◌,
}
use userspace_rcu.Lfht.Size.{fls_u64}

-- MIN_TABLE_SIZE
abbrev pub min_table_size : ℕ
min_table_size = 1

abbrev pub max : ℕ → ℕ → ℕ
max a b = if ltb a b then b else a

abbrev pub min : ℕ → ℕ → ℕ
min a b = if ltb a b then a else b

-- Where a thread stands that asks for another size, before the access that the constructor names.
pub data Asker : Type 0 where
  asked : Asker
  grow_load : (target : ℕ) → Asker
  grow_swap : (target old : ℕ) → Asker
  shrink_swap : (count size : ℕ) → Asker
  launch_initiated : Asker
  launch_destroy : Asker
  launch_queue : Asker
  launch_store : Asker

-- Where the worker stands. `growing i last` is before the pass of `init_table` for the order `i`,
-- and `shrinking first i` before that of `fini_table`.
pub data Worker : Type 0 where
  idle : Worker
  check_destroy : Worker
  set_initiated : Worker
  read_target : Worker
  growing : (i last : ℕ) → Worker
  grown : (i last : ℕ) → Worker
  grown_check : (i last : ℕ) → Worker
  shrinking : (first i : ℕ) → Worker
  shrunk : (first i : ℕ) → Worker
  shrunk_check : (first i : ℕ) → Worker
  clear_initiated : Worker
  compare_target : Worker

-- `works` counts the resize works that are queued.
pub record Table : Type 0 where
  pub size : ℕ
  pub resize_target : ℕ
  pub max_nr_buckets : ℕ
  pub resize_initiated : Bool
  pub in_progress_destroy : Bool
  pub works : ℕ
  pub worker : Worker
  pub asker : ℕ → Asker

-- `cds_lfht_get_count_order_ulong` of a size, which is not 0
abbrev order_of_size : ℕ → ℕ
order_of_size n = fls_u64 (n - 1)

-- the loop of `init_table`, before the pass for the order `i`
unfoldable pub init_table : (i last resize_target : ℕ) → Worker
init_table i last target =
    if ltb last i
    then clear_initiated
    else if ltb target (2 ^ i)
    then clear_initiated
    else grown i last

-- the loop of `fini_table`
unfoldable pub fini_table : (first i resize_target : ℕ) → Worker
fini_table first i target =
    if ltb i first
    then clear_initiated
    else if ltb (2 ^ (i - 1)) target
    then clear_initiated
    else shrunk first i

-- one step of the thread that runs `_do_cds_lfht_resize`
unfoldable pub work : Worker → Table → Table
unfolding init_table fini_table
work idle t = if t.works == 0 then t else record t { works = t.works - 1; worker = check_destroy }
work check_destroy t = record t { worker = if t.in_progress_destroy then idle else set_initiated }
work set_initiated t = record t { resize_initiated = true; worker = read_target }
work read_target t = record t {
  worker =
      if ltb t.size t.resize_target
      then growing (order_of_size t.size + 1) (order_of_size t.resize_target)
      else if ltb t.resize_target t.size
      then shrinking (order_of_size (max t.resize_target min_table_size) + 1) (order_of_size t.size)
      else clear_initiated;
}
work (growing i last) t = record t { worker = init_table i last t.resize_target }
work (grown i last) t = record t { size = 2 ^ i; worker = grown_check i last }
work (grown_check i last) t = record t {
  worker = if t.in_progress_destroy then clear_initiated else growing (i + 1) last;
}
work (shrinking first i) t = record t { worker = fini_table first i t.resize_target }
work (shrunk first i) t = record t { size = 2 ^ (i - 1); worker = shrunk_check first i }
work (shrunk_check first i) t = record t {
  worker = if t.in_progress_destroy then clear_initiated else shrinking first (i - 1);
}
work clear_initiated t = record t { resize_initiated = false; worker = compare_target }
work compare_target t = record t {
  worker = if t.size == t.resize_target then idle else check_destroy;
}

-- the tests of the loops of `_uatomic_xchg_monotonic_increase` and `cds_lfht_resize_lazy_count`
abbrev pub grow_look : (target old : ℕ) → Asker
grow_look target old = if leb target old then asked else grow_swap target old

abbrev pub shrink_look : (count size s : ℕ) → Asker
shrink_look count size s =
    if ltb size s then asked else if leb s count then asked else shrink_swap count s

-- one step of a thread that asks for another size
unfoldable pub ask : (i : ℕ) → Asker → Table → Table
ask i asked t = t
ask i (grow_load target) t = record t {
  asker = update t.asker i (grow_look target t.resize_target);
}
ask i (grow_swap target old) t =
    if t.resize_target == old
    then record t { resize_target = target; asker = update t.asker i launch_initiated }
    else record t { asker = update t.asker i (grow_look target t.resize_target) }
ask i (shrink_swap count size) t =
    if t.resize_target == size
    then record t { resize_target = count; asker = update t.asker i launch_initiated }
    else record t { asker = update t.asker i (shrink_look count size t.resize_target) }
ask i launch_initiated t = record t {
  asker = update t.asker i (if t.resize_initiated then asked else launch_destroy);
}
ask i launch_destroy t = record t {
  asker = update t.asker i (if t.in_progress_destroy then asked else launch_queue);
}
ask i launch_queue t = record t { works = t.works + 1; asker = update t.asker i launch_store }
ask i launch_store t = record t { resize_initiated = true; asker = update t.asker i asked }

-- `cds_lfht_resize_lazy_grow` and `cds_lfht_resize_lazy_count` up to their first access
unfoldable pub lazy_grow : (size growth : ℕ) → (max_nr_buckets : ℕ) → Asker
lazy_grow size growth m = grow_load (min ((size * 2 ^ growth) % word) m)

unfoldable pub lazy_count : (auto_resize : Bool) (size count : ℕ) → (max_nr_buckets : ℕ) → Asker
lazy_count auto size count m =
    let n = min (max count min_table_size) m in
    if not auto
    then asked
    else if n == size
    then asked
    else if ltb size n
    then grow_load n
    else shrink_swap n size

abbrev pub has_asked : Asker → Bool
has_asked asked = true
has_asked _ = false

pub data Event : Type 0 where
  call_grow : (i size growth : ℕ) → Event
  call_count : (i : ℕ) (auto_resize : Bool) (size count : ℕ) → Event
  go_ask : (i : ℕ) → Event
  go_work : Event
  destroy : Event

unfoldable pub step : Event → Table → Table
unfolding ask work lazy_grow lazy_count
step (call_grow i size growth) t =
    if has_asked (t.asker i)
    then record t { asker = update t.asker i (lazy_grow size growth t.max_nr_buckets) }
    else t
step (call_count i auto size count) t =
    if has_asked (t.asker i)
    then record t { asker = update t.asker i (lazy_count auto size count t.max_nr_buckets) }
    else t
step (go_ask i) t = ask i (t.asker i) t
step go_work t = work t.worker t
step destroy t = record t { in_progress_destroy = true }

unfoldable pub run : List Event → Table → Table
run [] t = t
run (e ∷ es) t = run es (step e t)
