-- ===== src/Lfht/Bits.antt =====
-- The bit reversal of src/rculfhash.c, by which the nodes of the hash table are ordered.
use userspace_rcu.Prelude.{ℕ, ◌+◌, ◌*◌, ◌/◌, ◌%◌, ◌^◌, List, [], ◌∷◌, ◌++◌, get_or}

-- the macros R2, R4 and R6
abbrev r2 : ℕ → List ℕ
r2 n = n ∷ (n + 2 * 64) ∷ (n + 1 * 64) ∷ (n + 3 * 64) ∷ []

abbrev r4 : ℕ → List ℕ
r4 n = r2 n ++ r2 (n + 2 * 16) ++ r2 (n + 1 * 16) ++ r2 (n + 3 * 16)

abbrev r6 : ℕ → List ℕ
r6 n = r4 n ++ r4 (n + 2 * 4) ++ r4 (n + 1 * 4) ++ r4 (n + 3 * 4)

-- `BitReverseTable256`
abbrev pub bit_reverse_table : List ℕ
bit_reverse_table = r6 0 ++ r6 2 ++ r6 1 ++ r6 3

-- of the low byte of its argument, as the conversion to `uint8_t` takes it
unfoldable pub bit_reverse_u8 : ℕ → ℕ
bit_reverse_u8 v = get_or bit_reverse_table (v % 2 ^ 8) 0

-- The eight bytes are disjoint, so that `|` is the sum.
unfoldable pub bit_reverse_u64 : ℕ → ℕ
bit_reverse_u64 v =
    bit_reverse_u8 v * 2 ^ 56
    + bit_reverse_u8 (v / 2 ^ 8) * 2 ^ 48
    + bit_reverse_u8 (v / 2 ^ 16) * 2 ^ 40
    + bit_reverse_u8 (v / 2 ^ 24) * 2 ^ 32
    + bit_reverse_u8 (v / 2 ^ 32) * 2 ^ 24
    + bit_reverse_u8 (v / 2 ^ 40) * 2 ^ 16
    + bit_reverse_u8 (v / 2 ^ 48) * 2 ^ 8
    + bit_reverse_u8 (v / 2 ^ 56)
