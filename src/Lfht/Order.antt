-- ===== src/Lfht/Order.antt =====
-- The order of a value is the number of its bits: src/rculfhash.c.
use userspace_rcu.Prelude.{
  ℕ, zero, suc, ◌+◌, ◌-◌, ◌*◌, ◌%◌, ◌^◌, ◌≤◌, ◌<◌, ◌≡◌, refl, inl, inr, ◌==◌, ltb, word, arith,
  Bool-cases, false, sym, ap, ◌∙◌,
}
use native.Mathlib.Nat.{
  mod-eq_of_lt, mul-one, add-zero, pow-suc, mul_assoc, lt_of_mul-lt-mul_right, pow-zero,
  le_of_mul-le-mul_right, one-le-pow,
}
use userspace_rcu.Lfht.Size.{narrow, fls_u64}

pub pow_add : (b m n : ℕ) → b ^ (m + n) ≡ b ^ m * b ^ n
pow_add b m zero = simp (pow-zero, mul-one, add-zero) refl
pow_add b m (suc n) =
    ap (λ t. b ^ t) (omega arith)
    ∙ pow-suc b (m + n)
    ∙ ap (λ t. t * b) (pow_add b m n)
    ∙ mul_assoc (b ^ m) (b ^ n) b
    ∙ ap (λ t. b ^ m * t) (sym (pow-suc b n))

-- The value has been shifted by `s`, and is below 2 ^ 64 and not below `l`.
record Shifted (x l s : ℕ) (p : ℕ × ℕ) : Type 0 where
  left : p.1 + s ≡ 64
  shifted : p.0 ≡ x * 2 ^ s
  below : p.0 < word
  least : l ≤ p.0

shift : (x s k : ℕ) → x * 2 ^ (s + k) ≡ x * 2 ^ s * 2 ^ k
shift x s k = ap (λ t. x * t) (pow_add 2 s k) ∙ sym (mul_assoc x (2 ^ s) (2 ^ k))

-- After a test by `k` bits, one of the highest `k` is set.
narrow-Shifted :
    (k l c x s : ℕ) (p : ℕ × ℕ)
    → s ≤ c
    → c + k ≤ 64
    → ((y : ℕ) → y < 2 ^ (64 - k) → y * 2 ^ k < word)
    → ((y : ℕ) → l ≤ y → 2 ^ (64 - k) ≤ y * 2 ^ k)
    → Shifted x l s p
    → (t : ℕ) × ((t ≤ c + k) × Shifted x (2 ^ (64 - k)) t (narrow k p))
unfolding narrow
narrow-Shifted k l c x s (y, r) b w f g v = elim (Bool-cases (ltb y (2 ^ (64 - k)))) [
  | inl e ↦
      let h = f y (ground arith) in
      let m : (y * 2 ^ k) % word ≡ y * 2 ^ k = mod-eq_of_lt h in
      (
        s + k,
        (
          omega arith,
          rw (e, m)
              record {
                left = omega (arith, v.left);
                shifted = ap (λ t. t * 2 ^ k) v.shifted ∙ sym (shift x s k);
                below = h;
                least = g y v.least;
              },
        ),
      )
  | inr e ↦ (
    s,
    (
      omega arith,
      rw e record { left = v.left; shifted = v.shifted; below = v.below; least = ground arith },
    ),
  )
]

-- The six tests.
fls_u64-Shifted :
    (x : ℕ)
    → 0 < x
    → x < word
    → (t : ℕ) × ((t ≤ 63) × ((fls_u64 x + t ≡ 64) × (2 ^ 63 ≤ x * 2 ^ t) × (x * 2 ^ t < word)))
unfolding fls_u64
fls_u64-Shifted x h w =
    let z : (x == 0) ≡ false = ground arith in
    let v0 : Shifted x 1 0 (x, 64) = record {
      left = refl;
      shifted = omega arith;
      below = w;
      least = h;
    } in
    let (s1, (b1, v1)) =
      narrow-Shifted 32 1 0 x 0 _ (omega arith) (omega arith) (λ y q. omega arith)
        (λ y q. omega arith) v0 in
    let (s2, (b2, v2)) =
      narrow-Shifted 16 (2 ^ 32) 32 x s1 _ b1 (omega arith) (λ y q. omega arith)
        (λ y q. omega arith) v1 in
    let (s3, (b3, v3)) =
      narrow-Shifted 8 (2 ^ 48) 48 x s2 _ b2 (omega arith) (λ y q. omega arith) (λ y q. omega arith)
        v2 in
    let (s4, (b4, v4)) =
      narrow-Shifted 4 (2 ^ 56) 56 x s3 _ b3 (omega arith) (λ y q. omega arith) (λ y q. omega arith)
        v3 in
    let (s5, (b5, v5)) =
      narrow-Shifted 2 (2 ^ 60) 60 x s4 _ b4 (omega arith) (λ y q. omega arith) (λ y q. omega arith)
        v4 in
    let (s6, (b6, v6)) =
      narrow-Shifted 1 (2 ^ 62) 62 x s5 _ b5 (omega arith) (λ y q. omega arith) (λ y q. omega arith)
        v5 in
    rw z (s6, (b6, (v6.left, rw v6.shifted at v6.least, rw v6.shifted at v6.below)))

-- For every word but 0, `fls_u64` is the number of bits that the word takes.
pub fls_u64-bounds :
    (x : ℕ)
    → 0 < x
    → x < word
    → (0 < fls_u64 x) × (fls_u64 x ≤ 64) × (2 ^ (fls_u64 x - 1) ≤ x) × (x < 2 ^ fls_u64 x)
fls_u64-bounds x h w =
    let (t, (b, (e, l, u))) = fls_u64-Shifted x h w in
    let r = fls_u64 x in
    let all : 2 ^ r * 2 ^ t ≡ word = sym (pow_add 2 r t) ∙ ap (λ n. 2 ^ n) e in
    let k : r - 1 + t ≡ 63 = omega arith in
    let half : 2 ^ (r - 1) * 2 ^ t ≡ 2 ^ 63 = sym (pow_add 2 (r - 1) t) ∙ ap (λ n. 2 ^ n) k in
    (
      omega arith,
      omega arith,
      le_of_mul-le-mul_right {k = 2 ^ t} (omega arith) (one-le-pow t 2 (omega arith)),
      lt_of_mul-lt-mul_right (2 ^ t) (omega arith),
    )
