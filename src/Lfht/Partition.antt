-- ===== src/Lfht/Partition.antt =====
-- How a pass over the buckets of an order is split among threads: `partition_resize_helper` of
-- src/rculfhash.c.
mod Covers
mod Tests
use userspace_rcu.Prelude.{
  ℕ, zero, suc, ◌+◌, ◌-◌, ◌*◌, ◌/◌, ◌^◌, Bool, true, false, not, ◌&&◌, ◌||◌, ◌==◌, ltb,
  if◌then◌else◌, Option, none, some, List, [], ◌∷◌, ◌++◌,
}
use userspace_rcu.Lfht.Size.{fls_u64}

-- MIN_PARTITION_PER_THREAD_ORDER and MIN_PARTITION_PER_THREAD
abbrev pub min_partition_per_thread_order : ℕ
min_partition_per_thread_order = 12

abbrev pub min_partition_per_thread : ℕ
min_partition_per_thread = 4096

-- The start and the length of the part that a call of `fct` passes over.
abbrev pub Part : Type 0
Part = ℕ × ℕ

-- `nr_cpus_mask` is `none` where it is negative
unfoldable pub nr_threads : (nr_cpus_mask len : ℕ) → ℕ
nr_threads mask len =
    if mask == 0
    then 1
    else (let wanted = len / 2 ^ min_partition_per_thread_order in
        if ltb (mask + 1) wanted then mask + 1 else wanted)

-- the loop that creates the threads, of which `left` are left: their parts, and the one for which
-- `pthread_create` returned EAGAIN
unfoldable pub spawn : (created : ℕ → Bool) (partition_len thread left : ℕ) → List Part × Option ℕ
spawn created l t zero = ([], none)
spawn created l t (suc n) =
    let rest = spawn created l (t + 1) n in
    if created t then ((t * l, l) ∷ rest.0, rest.1) else ([], some t)

-- what is left for the calling thread, which `start` and `nr_threads` say
unfoldable pub leftovers : (start len nr : ℕ) → List Part
leftovers start len nr = if (start == 0) && ltb 0 nr then [] else (start, len) ∷ []

unfoldable pub joined : (partition_len len nr : ℕ) → List Part × Option ℕ → List Part
unfolding leftovers
joined l len nr (parts, none) = parts ++ leftovers 0 len nr
joined l len nr (parts, some t) = parts ++ leftovers (t * l) (len - t * l) t

-- the parts that `partition_resize_helper` has passed over when it returns
unfoldable pub partition_resize_helper :
    (nr_cpus_mask : Option ℕ) (len : ℕ) (allocated : Bool) (created : ℕ → Bool) → List Part
unfolding nr_threads spawn joined fls_u64
partition_resize_helper none len a created = (0, len) ∷ []
partition_resize_helper (some mask) len a created =
    if ltb len (2 * min_partition_per_thread) || not a
    then (0, len) ∷ []
    else (let nr = nr_threads mask len in
        let l = len / 2 ^ fls_u64 (nr - 1) in joined l len nr (spawn created l 0 nr))
