-- ===== src/Lfht/Memory.antt =====
-- Where the buckets of a hash table are: src/rculfhash-mm-order.c and src/rculfhash-mm-chunk.c. The
-- least number of buckets to allocate is a power of two, 2 ^ `min_order`.
use userspace_rcu.Prelude.{ℕ, ◌-◌, ◌*◌, ◌/◌, ◌%◌, ◌^◌, Bool, ◌&&◌, ◌==◌, ltb, leb, if◌then◌else◌}
use userspace_rcu.Lfht.Size.{fls_u64}

-- how many nodes the table of an order has, 0 if it is not allocated
abbrev pub order_len : (min_order order : ℕ) → ℕ
order_len m order = if order == 0 then 2 ^ m else if ltb m order then 2 ^ (order - 1) else 0

-- `bucket_at` of rculfhash-mm-order.c: a table and an index into it
unfoldable pub bucket_at_order : (min_order index : ℕ) → ℕ × ℕ
unfolding fls_u64
bucket_at_order m index =
    if ltb index (2 ^ m)
    then (0, index)
    else (let order = fls_u64 index in (order, index % 2 ^ (order - 1)))

-- whether the allocation for an order allocates a chunk, each of which has 2 ^ `min_order` nodes
abbrev pub allocates_chunk : (min_order order chunk : ℕ) → Bool
allocates_chunk m order chunk =
    if order == 0
    then chunk == 0
    else ltb m order && (leb (2 ^ (order - 1 - m)) chunk && ltb chunk (2 * 2 ^ (order - 1 - m)))

-- `bucket_at` of rculfhash-mm-chunk.c: a chunk and an offset in it
unfoldable pub bucket_at_chunk : (min_order index : ℕ) → ℕ × ℕ
bucket_at_chunk m index = (index / 2 ^ m, index % 2 ^ m)

-- the order with whose allocation a bucket comes
unfoldable pub order_of : (min_order index : ℕ) → ℕ
unfolding fls_u64
order_of m index = if ltb index (2 ^ m) then 0 else fls_u64 index
