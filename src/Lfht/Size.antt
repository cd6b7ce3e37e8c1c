-- ===== src/Lfht/Size.antt =====
-- The position of the highest bit, by which sizes and bucket indices become orders:
-- src/rculfhash.c, in the version without assembly.
use userspace_rcu.Prelude.{
  ℕ, ◌-◌, ◌*◌, ◌%◌, ◌^◌, ◌==◌, ltb, if◌then◌else◌, word, Option, none, some,
}

-- One test of `fls_u64` for the value `x` and the result `r` so far, which are given together: the
-- highest `k` bits of `x` are clear if it is below 2 ^ (64 - k).
unfoldable pub narrow : (k : ℕ) → ℕ × ℕ → ℕ × ℕ
narrow k (x, r) = if ltb x (2 ^ (64 - k)) then ((x * 2 ^ k) % word, r - k) else (x, r)

unfoldable pub fls_u64 : ℕ → ℕ
unfolding narrow
fls_u64 x =
    if x == 0
    then 0
    else (narrow 1 (narrow 2 (narrow 4 (narrow 8 (narrow 16 (narrow 32 (x, 64))))))).1

-- `cds_lfht_get_count_order_ulong`, where `none` is -1
unfoldable pub get_count_order_ulong : ℕ → Option ℕ
unfolding fls_u64
get_count_order_ulong x = if x == 0 then none else some (fls_u64 (x - 1))
