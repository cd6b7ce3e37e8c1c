-- ===== src/Prelude/Words.antt =====
-- `unsigned long` on a 64-bit target: plain numbers below `word`, with the wrap-around written out.
use Prim.Native.Nat.{ℕ, ◌+◌, ◌-◌, ◌%◌, ◌^◌}
use mathlib.Core.Bool.{Bool}
use userspace_rcu.Prelude.Tests.{ltb}

-- 2 ^ CAA_BITS_PER_LONG
abbrev pub word : ℕ
word = 2 ^ 64

-- a + b
abbrev pub add_word : ℕ → ℕ → ℕ
add_word a b = (a + b) % word

-- a - b
abbrev pub sub_word : ℕ → ℕ → ℕ
sub_word a b = (a + word - b) % word

-- (long) a < 0
abbrev pub is_negative : ℕ → Bool
is_negative a = ltb (2 ^ 63 - 1) a
