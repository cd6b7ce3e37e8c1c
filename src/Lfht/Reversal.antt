-- ===== src/Lfht/Reversal.antt =====
-- The reversal takes every bit to its mirror place.
use userspace_rcu.Prelude.{
  ℕ, zero, suc, ◌+◌, ◌*◌, ◌/◌, ◌%◌, ◌^◌, ◌<◌, ◌≡◌, refl, List, [], ◌∷◌, arith, get_or, ap, ◌∙◌, sym,
}
use userspace_rcu.Lfht.Bits.{bit_reverse_table, bit_reverse_u8, bit_reverse_u64}

-- bit `i` of a word
abbrev pub bit : (i v : ℕ) → ℕ
bit i v = v / 2 ^ i % 2

-- the eight digits of a byte, mirrored
abbrev pub mirrored : ℕ → ℕ
mirrored b =
    bit 0 b * 128
    + bit 1 b * 64
    + bit 2 b * 32
    + bit 3 b * 16
    + bit 4 b * 8
    + bit 5 b * 4
    + bit 6 b * 2
    + bit 7 b

-- the images of `n` numbers from `k` on
images : (f : ℕ → ℕ) (k n : ℕ) → List ℕ
images f k zero = []
images f k (suc n) = f k ∷ images f (suc k) n

get_or-images : (f : ℕ → ℕ) (k n i : ℕ) → i < n → get_or (images f k n) i 0 ≡ f (k + i)
unfolding images
get_or-images f k zero i l = ground arith
get_or-images f k (suc n) zero l = ap f (ground arith)
get_or-images f k (suc n) (suc i) l =
    get_or-images f (suc k) n i (ground arith) ∙ ap f (ground arith)

table_mirrors : bit_reverse_table ≡ images mirrored 0 256
unfolding images
table_mirrors = refl

-- A byte is looked up as the byte with its eight binary digits in the reverse order.
pub bit_reverse_u8-mirrors : (v : ℕ) → bit_reverse_u8 v ≡ mirrored (v % 2 ^ 8)
unfolding bit_reverse_u8
bit_reverse_u8-mirrors v =
    ap (λ t. get_or t (v % 2 ^ 8) 0) table_mirrors
    ∙ get_or-images mirrored 0 256 (v % 2 ^ 8) (omega arith)
    ∙ ap mirrored (ground arith)

mirrored_twice : images (λ b. mirrored (mirrored b)) 0 256 ≡ images (λ b. b) 0 256
unfolding images
mirrored_twice = refl

mirrored-involutive : (b : ℕ) → b < 2 ^ 8 → mirrored (mirrored b) ≡ b
mirrored-involutive b l =
    sym (ap (λ k. mirrored (mirrored k)) (ground arith))
    ∙ sym (get_or-images (λ k. mirrored (mirrored k)) 0 256 b l)
    ∙ ap (λ t. get_or t b 0) mirrored_twice
    ∙ get_or-images (λ k. k) 0 256 b l
    ∙ ground arith

mirrored-bound : (b : ℕ) → mirrored b < 2 ^ 8
mirrored-bound b = omega arith

bit_reverse_u8-bound : (v : ℕ) → bit_reverse_u8 v < 2 ^ 8
bit_reverse_u8-bound v = rw (bit_reverse_u8-mirrors v) (mirrored-bound (v % 2 ^ 8))

-- a byte that is the reverse of another byte
bit_reverse_u8-back : (w v : ℕ) → w % 2 ^ 8 ≡ bit_reverse_u8 v → bit_reverse_u8 w ≡ v % 2 ^ 8
bit_reverse_u8-back w v e =
    bit_reverse_u8-mirrors w
    ∙ ap mirrored (e ∙ bit_reverse_u8-mirrors v)
    ∙ mirrored-involutive (v % 2 ^ 8) (omega arith)

-- eight bytes put together, and one of them taken out
abbrev joined : (a b c d e f g h : ℕ) → ℕ
joined a b c d e f g h =
    a * 2 ^ 56 + b * 2 ^ 48 + c * 2 ^ 40 + d * 2 ^ 32 + e * 2 ^ 24 + f * 2 ^ 16 + g * 2 ^ 8 + h

module _ (a b c d e f g h : ℕ) (la : a < 2 ^ 8) (lb : b < 2 ^ 8) (lc : c < 2 ^ 8) (ld : d < 2 ^ 8)
    (le : e < 2 ^ 8) (lf : f < 2 ^ 8) (lg : g < 2 ^ 8) (lh : h < 2 ^ 8) where
  byte_0 : joined a b c d e f g h % 2 ^ 8 ≡ h
  byte_0 = omega arith

  byte_1 : joined a b c d e f g h / 2 ^ 8 % 2 ^ 8 ≡ g
  byte_1 = omega arith

  byte_2 : joined a b c d e f g h / 2 ^ 16 % 2 ^ 8 ≡ f
  byte_2 = omega arith

  byte_3 : joined a b c d e f g h / 2 ^ 24 % 2 ^ 8 ≡ e
  byte_3 = omega arith

  byte_4 : joined a b c d e f g h / 2 ^ 32 % 2 ^ 8 ≡ d
  byte_4 = omega arith

  byte_5 : joined a b c d e f g h / 2 ^ 40 % 2 ^ 8 ≡ c
  byte_5 = omega arith

  byte_6 : joined a b c d e f g h / 2 ^ 48 % 2 ^ 8 ≡ b
  byte_6 = omega arith

  byte_7 : joined a b c d e f g h / 2 ^ 56 % 2 ^ 8 ≡ a
  byte_7 = omega arith

bytes-joined :
    (v : ℕ)
    → v < 2 ^ 64
    → joined
        (v / 2 ^ 56 % 2 ^ 8)
        (v / 2 ^ 48 % 2 ^ 8)
        (v / 2 ^ 40 % 2 ^ 8)
        (v / 2 ^ 32 % 2 ^ 8)
        (v / 2 ^ 24 % 2 ^ 8)
        (v / 2 ^ 16 % 2 ^ 8)
        (v / 2 ^ 8 % 2 ^ 8)
        (v % 2 ^ 8)
      ≡ v
bytes-joined v l = omega arith

-- Reversing the bits of a 64-bit word twice gives the word.
pub bit_reverse_u64-involutive : (v : ℕ) → v < 2 ^ 64 → bit_reverse_u64 (bit_reverse_u64 v) ≡ v
unfolding bit_reverse_u64
bit_reverse_u64-involutive v l =
    let w =
      joined (bit_reverse_u8 v) (bit_reverse_u8 (v / 2 ^ 8)) (bit_reverse_u8 (v / 2 ^ 16))
        (bit_reverse_u8 (v / 2 ^ 24)) (bit_reverse_u8 (v / 2 ^ 32)) (bit_reverse_u8 (v / 2 ^ 40))
        (bit_reverse_u8 (v / 2 ^ 48)) (bit_reverse_u8 (v / 2 ^ 56)) in
    let e0 = bit_reverse_u8-back w (v / 2 ^ 56) (
      byte_0 (bit_reverse_u8 v) (bit_reverse_u8 (v / 2 ^ 8)) (bit_reverse_u8 (v / 2 ^ 16))
        (bit_reverse_u8 (v / 2 ^ 24)) (bit_reverse_u8 (v / 2 ^ 32)) (bit_reverse_u8 (v / 2 ^ 40))
        (bit_reverse_u8 (v / 2 ^ 48)) (bit_reverse_u8 (v / 2 ^ 56)) (bit_reverse_u8-bound v)
        (bit_reverse_u8-bound (v / 2 ^ 8)) (bit_reverse_u8-bound (v / 2 ^ 16))
        (bit_reverse_u8-bound (v / 2 ^ 24)) (bit_reverse_u8-bound (v / 2 ^ 32))
        (bit_reverse_u8-bound (v / 2 ^ 40)) (bit_reverse_u8-bound (v / 2 ^ 48))
        (bit_reverse_u8-bound (v / 2 ^ 56))) in
    let e1 = bit_reverse_u8-back (w / 2 ^ 8) (v / 2 ^ 48) (
      byte_1 (bit_reverse_u8 v) (bit_reverse_u8 (v / 2 ^ 8)) (bit_reverse_u8 (v / 2 ^ 16))
        (bit_reverse_u8 (v / 2 ^ 24)) (bit_reverse_u8 (v / 2 ^ 32)) (bit_reverse_u8 (v / 2 ^ 40))
        (bit_reverse_u8 (v / 2 ^ 48)) (bit_reverse_u8 (v / 2 ^ 56)) (bit_reverse_u8-bound v)
        (bit_reverse_u8-bound (v / 2 ^ 8)) (bit_reverse_u8-bound (v / 2 ^ 16))
        (bit_reverse_u8-bound (v / 2 ^ 24)) (bit_reverse_u8-bound (v / 2 ^ 32))
        (bit_reverse_u8-bound (v / 2 ^ 40)) (bit_reverse_u8-bound (v / 2 ^ 48))
        (bit_reverse_u8-bound (v / 2 ^ 56))) in
    let e2 = bit_reverse_u8-back (w / 2 ^ 16) (v / 2 ^ 40) (
      byte_2 (bit_reverse_u8 v) (bit_reverse_u8 (v / 2 ^ 8)) (bit_reverse_u8 (v / 2 ^ 16))
        (bit_reverse_u8 (v / 2 ^ 24)) (bit_reverse_u8 (v / 2 ^ 32)) (bit_reverse_u8 (v / 2 ^ 40))
        (bit_reverse_u8 (v / 2 ^ 48)) (bit_reverse_u8 (v / 2 ^ 56)) (bit_reverse_u8-bound v)
        (bit_reverse_u8-bound (v / 2 ^ 8)) (bit_reverse_u8-bound (v / 2 ^ 16))
        (bit_reverse_u8-bound (v / 2 ^ 24)) (bit_reverse_u8-bound (v / 2 ^ 32))
        (bit_reverse_u8-bound (v / 2 ^ 40)) (bit_reverse_u8-bound (v / 2 ^ 48))
        (bit_reverse_u8-bound (v / 2 ^ 56))) in
    let e3 = bit_reverse_u8-back (w / 2 ^ 24) (v / 2 ^ 32) (
      byte_3 (bit_reverse_u8 v) (bit_reverse_u8 (v / 2 ^ 8)) (bit_reverse_u8 (v / 2 ^ 16))
        (bit_reverse_u8 (v / 2 ^ 24)) (bit_reverse_u8 (v / 2 ^ 32)) (bit_reverse_u8 (v / 2 ^ 40))
        (bit_reverse_u8 (v / 2 ^ 48)) (bit_reverse_u8 (v / 2 ^ 56)) (bit_reverse_u8-bound v)
        (bit_reverse_u8-bound (v / 2 ^ 8)) (bit_reverse_u8-bound (v / 2 ^ 16))
        (bit_reverse_u8-bound (v / 2 ^ 24)) (bit_reverse_u8-bound (v / 2 ^ 32))
        (bit_reverse_u8-bound (v / 2 ^ 40)) (bit_reverse_u8-bound (v / 2 ^ 48))
        (bit_reverse_u8-bound (v / 2 ^ 56))) in
    let e4 = bit_reverse_u8-back (w / 2 ^ 32) (v / 2 ^ 24) (
      byte_4 (bit_reverse_u8 v) (bit_reverse_u8 (v / 2 ^ 8)) (bit_reverse_u8 (v / 2 ^ 16))
        (bit_reverse_u8 (v / 2 ^ 24)) (bit_reverse_u8 (v / 2 ^ 32)) (bit_reverse_u8 (v / 2 ^ 40))
        (bit_reverse_u8 (v / 2 ^ 48)) (bit_reverse_u8 (v / 2 ^ 56)) (bit_reverse_u8-bound v)
        (bit_reverse_u8-bound (v / 2 ^ 8)) (bit_reverse_u8-bound (v / 2 ^ 16))
        (bit_reverse_u8-bound (v / 2 ^ 24)) (bit_reverse_u8-bound (v / 2 ^ 32))
        (bit_reverse_u8-bound (v / 2 ^ 40)) (bit_reverse_u8-bound (v / 2 ^ 48))
        (bit_reverse_u8-bound (v / 2 ^ 56))) in
    let e5 = bit_reverse_u8-back (w / 2 ^ 40) (v / 2 ^ 16) (
      byte_5 (bit_reverse_u8 v) (bit_reverse_u8 (v / 2 ^ 8)) (bit_reverse_u8 (v / 2 ^ 16))
        (bit_reverse_u8 (v / 2 ^ 24)) (bit_reverse_u8 (v / 2 ^ 32)) (bit_reverse_u8 (v / 2 ^ 40))
        (bit_reverse_u8 (v / 2 ^ 48)) (bit_reverse_u8 (v / 2 ^ 56)) (bit_reverse_u8-bound v)
        (bit_reverse_u8-bound (v / 2 ^ 8)) (bit_reverse_u8-bound (v / 2 ^ 16))
        (bit_reverse_u8-bound (v / 2 ^ 24)) (bit_reverse_u8-bound (v / 2 ^ 32))
        (bit_reverse_u8-bound (v / 2 ^ 40)) (bit_reverse_u8-bound (v / 2 ^ 48))
        (bit_reverse_u8-bound (v / 2 ^ 56))) in
    let e6 = bit_reverse_u8-back (w / 2 ^ 48) (v / 2 ^ 8) (
      byte_6 (bit_reverse_u8 v) (bit_reverse_u8 (v / 2 ^ 8)) (bit_reverse_u8 (v / 2 ^ 16))
        (bit_reverse_u8 (v / 2 ^ 24)) (bit_reverse_u8 (v / 2 ^ 32)) (bit_reverse_u8 (v / 2 ^ 40))
        (bit_reverse_u8 (v / 2 ^ 48)) (bit_reverse_u8 (v / 2 ^ 56)) (bit_reverse_u8-bound v)
        (bit_reverse_u8-bound (v / 2 ^ 8)) (bit_reverse_u8-bound (v / 2 ^ 16))
        (bit_reverse_u8-bound (v / 2 ^ 24)) (bit_reverse_u8-bound (v / 2 ^ 32))
        (bit_reverse_u8-bound (v / 2 ^ 40)) (bit_reverse_u8-bound (v / 2 ^ 48))
        (bit_reverse_u8-bound (v / 2 ^ 56))) in
    let e7 = bit_reverse_u8-back (w / 2 ^ 56) v (
      byte_7 (bit_reverse_u8 v) (bit_reverse_u8 (v / 2 ^ 8)) (bit_reverse_u8 (v / 2 ^ 16))
        (bit_reverse_u8 (v / 2 ^ 24)) (bit_reverse_u8 (v / 2 ^ 32)) (bit_reverse_u8 (v / 2 ^ 40))
        (bit_reverse_u8 (v / 2 ^ 48)) (bit_reverse_u8 (v / 2 ^ 56)) (bit_reverse_u8-bound v)
        (bit_reverse_u8-bound (v / 2 ^ 8)) (bit_reverse_u8-bound (v / 2 ^ 16))
        (bit_reverse_u8-bound (v / 2 ^ 24)) (bit_reverse_u8-bound (v / 2 ^ 32))
        (bit_reverse_u8-bound (v / 2 ^ 40)) (bit_reverse_u8-bound (v / 2 ^ 48))
        (bit_reverse_u8-bound (v / 2 ^ 56))) in
    rw (e0, e1, e2, e3, e4, e5, e6, e7) (bytes-joined v l)
