-- ===== src/Lfht/Tests.antt =====
-- Reversals of concrete words.
use userspace_rcu.Prelude.{◌≡◌, refl, arith, ◌^◌}
use userspace_rcu.Lfht.Bits.{bit_reverse_u8, bit_reverse_u64}
use userspace_rcu.Prelude.{◌<◌, ◌≤◌, ◌-◌, ◌+◌, ◌==◌, if◌then◌else◌, some, arith}
use userspace_rcu.Lfht.Mirror.{
  reversed, bit_reverse_u64-digits, lookup_bucket, lookup_bucket-before,
}
use userspace_rcu.Lfht.Size.{fls_u64, get_count_order_ulong}
use userspace_rcu.Lfht.Order.{fls_u64-bounds}
use userspace_rcu.Lfht.Memory.{order_len, order_of, bucket_at_order}
use userspace_rcu.Lfht.Buckets.{bucket_at_order-inside}
use userspace_rcu.Lfht.Reversal.{bit_reverse_u64-involutive}

one_to_top : bit_reverse_u64 1 ≡ 2 ^ 63
unfolding bit_reverse_u64 bit_reverse_u8
one_to_top = refl

bit_reverse_u64-involutive_example : bit_reverse_u64 (bit_reverse_u64 12345) ≡ 12345
bit_reverse_u64-involutive_example = bit_reverse_u64-involutive 12345 (ground arith)

fls_u64-bounds_example :
    (0 < fls_u64 6) × (fls_u64 6 ≤ 64) × (2 ^ (fls_u64 6 - 1) ≤ 6) × (6 < 2 ^ fls_u64 6)
fls_u64-bounds_example = fls_u64-bounds 6 (omega arith) (omega arith)

order_of_six : get_count_order_ulong 6 ≡ some 3
unfolding get_count_order_ulong
order_of_six = refl

-- Bucket 13 of a table that begins with four buckets is node 5 of the table of order 4.
bucket_at_order-inside_example :
    (5 < order_len 2 4) × (4 ≡ order_of 2 13) × (13 ≡ (if 4 == 0 then 5 else 2 ^ (4 - 1) + 5))
unfolding bucket_at_order
bucket_at_order-inside_example = bucket_at_order-inside 2 13 (omega arith)

bit_reverse_u64-digits_example : bit_reverse_u64 12345 ≡ reversed 64 12345
bit_reverse_u64-digits_example = bit_reverse_u64-digits 12345

-- The hash 13 has bucket 5 in a table of eight.
lookup_bucket-before_example : bit_reverse_u64 (lookup_bucket 3 13) ≤ bit_reverse_u64 13
lookup_bucket-before_example = lookup_bucket-before 3 13
