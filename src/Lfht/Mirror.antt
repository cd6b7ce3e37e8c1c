-- ===== src/Lfht/Mirror.antt =====
-- The bit reversal of src/rculfhash.c against the reversal of one binary digit after the other, and
-- which bucket a hash has.
use native.Mathlib.Nat.{
  add-mul, div-div-eq-div-mul, pow-suc, mul_assoc, mul_comm, zero-mul, div-add-mod, mod-one,
}
use userspace_rcu.Prelude.{
  ℕ, zero, suc, ◌+◌, ◌*◌, ◌/◌, ◌%◌, ◌^◌, ◌≤◌, ◌≡◌, refl, arith, sym, ap, ◌∙◌,
}
use userspace_rcu.Lfht.Bits.{bit_reverse_u8, bit_reverse_u64}
use userspace_rcu.Lfht.Order.{pow_add}
use userspace_rcu.Lfht.Reversal.{bit_reverse_u8-mirrors}

-- the lowest `k` binary digits in the reverse order
unfoldable pub reversed : (k v : ℕ) → ℕ
reversed zero v = 0
reversed (suc k) v = v % 2 * 2 ^ k + reversed k (v / 2)

reversed-byte : (v : ℕ) → reversed 8 v ≡ bit_reverse_u8 v
unfolding reversed
reversed-byte v = omega (arith, bit_reverse_u8-mirrors v)

reversed-split : (a k v : ℕ) → reversed (a + k) v ≡ reversed a v * 2 ^ k + reversed k (v / 2 ^ a)
unfolding reversed
reversed-split zero k v =
    let e : 0 + k ≡ k = omega arith in
    let f : v / 2 ^ 0 ≡ v = omega arith in
    let z : 0 * 2 ^ k ≡ 0 = zero-mul (2 ^ k) in rw (e, f, z) (omega arith)
reversed-split (suc a) k v =
    let e : suc a + k ≡ suc (a + k) = omega arith in
    let f : v / 2 / 2 ^ a ≡ v / 2 ^ suc a =
      div-div-eq-div-mul v 2 (2 ^ a) ∙ ap (λ t. v / t) (mul_comm 2 (2 ^ a) ∙ sym (pow-suc 2 a)) in
    let g : v % 2 * 2 ^ (a + k) ≡ v % 2 * 2 ^ a * 2 ^ k =
      ap (λ t. v % 2 * t) (pow_add 2 a k) ∙ sym (mul_assoc (v % 2) (2 ^ a) (2 ^ k)) in
    let h = add-mul (v % 2 * 2 ^ a) (reversed a (v / 2)) (2 ^ k) in
    let r = ap (λ t. reversed k t) f in
    ap (λ t. reversed t v) e ∙ omega (arith, g, h, r, reversed-split a k (v / 2))

-- the reverse of the bytes above the lowest
higher : (k v : ℕ) → reversed (8 + k) v ≡ bit_reverse_u8 v * 2 ^ k + reversed k (v / 2 ^ 8)
higher k v = reversed-split 8 k v ∙ ap (λ t. t * 2 ^ k + reversed k (v / 2 ^ 8)) (reversed-byte v)

-- The table of bytes reverses a word as taking its 64 digits one after the other does.
pub bit_reverse_u64-digits : (v : ℕ) → bit_reverse_u64 v ≡ reversed 64 v
unfolding bit_reverse_u64
bit_reverse_u64-digits v =
    let d1 : v / 2 ^ 8 / 2 ^ 8 ≡ v / 2 ^ 16 = omega arith in
    let d2 : v / 2 ^ 16 / 2 ^ 8 ≡ v / 2 ^ 24 = omega arith in
    let d3 : v / 2 ^ 24 / 2 ^ 8 ≡ v / 2 ^ 32 = omega arith in
    let d4 : v / 2 ^ 32 / 2 ^ 8 ≡ v / 2 ^ 40 = omega arith in
    let d5 : v / 2 ^ 40 / 2 ^ 8 ≡ v / 2 ^ 48 = omega arith in
    let d6 : v / 2 ^ 48 / 2 ^ 8 ≡ v / 2 ^ 56 = omega arith in
    omega (
      arith,
      higher 56 v,
      higher 48 (v / 2 ^ 8) ∙ ap (λ t. bit_reverse_u8 (v / 2 ^ 8) * 2 ^ 48 + reversed 48 t) d1,
      higher 40 (v / 2 ^ 16) ∙ ap (λ t. bit_reverse_u8 (v / 2 ^ 16) * 2 ^ 40 + reversed 40 t) d2,
      higher 32 (v / 2 ^ 24) ∙ ap (λ t. bit_reverse_u8 (v / 2 ^ 24) * 2 ^ 32 + reversed 32 t) d3,
      higher 24 (v / 2 ^ 32) ∙ ap (λ t. bit_reverse_u8 (v / 2 ^ 32) * 2 ^ 24 + reversed 24 t) d4,
      higher 16 (v / 2 ^ 40) ∙ ap (λ t. bit_reverse_u8 (v / 2 ^ 40) * 2 ^ 16 + reversed 16 t) d5,
      higher 8 (v / 2 ^ 48) ∙ ap (λ t. bit_reverse_u8 (v / 2 ^ 48) * 2 ^ 8 + reversed 8 t) d6,
      reversed-byte (v / 2 ^ 56),
    )

reversed-none : (k : ℕ) → reversed k 0 ≡ 0
unfolding reversed
reversed-none zero = refl
reversed-none (suc k) =
    let z : 0 * 2 ^ k ≡ 0 = zero-mul (2 ^ k) in omega (arith, z, reversed-none k)

low_bits : (n v : ℕ) → (v % 2 ^ suc n % 2 ≡ v % 2) × (v % 2 ^ suc n / 2 ≡ v / 2 % 2 ^ n)
low_bits n v =
    let q : v / 2 / 2 ^ n ≡ v / 2 ^ suc n =
      div-div-eq-div-mul v 2 (2 ^ n) ∙ ap (λ t. v / t) (mul_comm 2 (2 ^ n) ∙ sym (pow-suc 2 n)) in
    let whole = div-add-mod v (2 ^ suc n) in
    let half = div-add-mod (v / 2) (2 ^ n) in
    let twice : 2 ^ suc n * (v / 2 ^ suc n) ≡ 2 * (2 ^ n * (v / 2 / 2 ^ n)) =
      ap (λ t. t * (v / 2 ^ suc n)) (pow-suc 2 n ∙ mul_comm (2 ^ n) 2)
      ∙ mul_assoc 2 (2 ^ n) (v / 2 ^ suc n)
      ∙ ap (λ t. 2 * (2 ^ n * t)) (sym q) in
    (omega (arith, whole, half, twice), omega (arith, whole, half, twice))

reversed-le : (k n v : ℕ) → reversed k (v % 2 ^ n) ≤ reversed k v
unfolding reversed
reversed-le zero n v = omega arith
reversed-le (suc k) zero v =
    let e : reversed (suc k) (v % 1) ≡ 0 =
      ap (reversed (suc k)) (mod-one v) ∙ reversed-none (suc k) in
    omega (arith, e)
reversed-le (suc k) (suc n) v =
    let (low, high) = low_bits n v in rw (low, high) (omega (arith, reversed-le k n (v / 2)))

-- `lookup_bucket`: `hash & (size - 1)` for the size 2 ^ `order`
unfoldable pub lookup_bucket : (order hash : ℕ) → ℕ
lookup_bucket order hash = hash % 2 ^ order

-- The bucket of a hash is never after a node with that hash: its reversed index is not greater.
pub lookup_bucket-before :
    (order hash : ℕ) → bit_reverse_u64 (lookup_bucket order hash) ≤ bit_reverse_u64 hash
unfolding lookup_bucket
lookup_bucket-before order hash =
    rw (bit_reverse_u64-digits (hash % 2 ^ order), bit_reverse_u64-digits hash)
      (reversed-le 64 order hash)
