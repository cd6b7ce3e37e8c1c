-- ===== src/Lfht/Buckets.antt =====
-- Each bucket has a place of its own in memory that is allocated: src/rculfhash-mm-order.c and
-- src/rculfhash-mm-chunk.c.
use userspace_rcu.Prelude.{
  ℕ, zero, suc, ◌+◌, ◌-◌, ◌*◌, ◌/◌, ◌%◌, ◌^◌, ◌≤◌, ◌<◌, ◌≡◌, refl, inl, inr, true, false, ◌==◌, ltb,
  if◌then◌else◌, word, arith, Bool-cases, sym, ap, ◌∙◌,
}
use native.Mathlib.Nat.{
  mod-lt, pow-suc, div-eq_of_lt, div-eq_of_lt-le, one-le-pow, div-add-mod, lt_of_mul-lt-mul_right,
  pow-le-pow_right,
}
use userspace_rcu.Lfht.Size.{fls_u64}
use userspace_rcu.Lfht.Order.{fls_u64-bounds, pow_add}
use userspace_rcu.Lfht.Memory.{
  order_len, bucket_at_order, allocates_chunk, bucket_at_chunk, order_of,
}

pow_positive : (m : ℕ) → 0 < 2 ^ m
pow_positive m = one-le-pow m 2 (omega arith)

-- `2 ^ m ≤ x` takes more than `m` bits.
above : (m x : ℕ) → 2 ^ m ≤ x → x < word → m < fls_u64 x
above m x b w =
    let (p, l, lo, hi) = fls_u64-bounds x (omega (arith, pow_positive m)) w in
    elim (Bool-cases (ltb m (fls_u64 x))) [
      | inl e ↦ ground arith
      | inr e ↦
          let q : 2 ^ fls_u64 x ≤ 2 ^ m = pow-le-pow_right (omega arith) (ground arith) in
          absurd (omega arith)
    ]

-- the half of a power of two
halved : (r : ℕ) → 0 < r → 2 ^ r ≡ 2 * 2 ^ (r - 1)
halved zero p = omega arith
halved (suc r) p = let k : suc r - 1 ≡ r = omega arith in rw k (omega (arith, pow-suc 2 r))

mod_once : (p x : ℕ) → p ≤ x → x < 2 * p → x ≡ p + x % p
mod_once p x a b =
    let q : x / p ≡ 1 = div-eq_of_lt-le p (omega arith) (omega arith) in
    sym (div-add-mod x p) ∙ ap (λ t. p * t + x % p) q ∙ omega arith

lt_of_ltb : (a b : ℕ) → ltb a b ≡ true → a < b
lt_of_ltb a b e = ground arith

le_of_ltb : (a b : ℕ) → ltb a b ≡ false → b ≤ a
le_of_ltb a b e = ground arith

quotient_bounds :
    (p q rem index l : ℕ)
    → p * q + rem ≡ index
    → rem < p
    → l * p ≤ index
    → index < 2 * (l * p)
    → (l ≤ q) × (q < 2 * l)
quotient_bounds p q rem index l d r a b =
    let up : l < suc q = lt_of_mul-lt-mul_right p (omega arith) in
    let down : q < 2 * l = lt_of_mul-lt-mul_right p (omega arith) in (omega arith, down)

-- In the layout by orders, a bucket is inside of the table of its order, which is allocated; the
-- table and the index tell the bucket.
pub bucket_at_order-inside :
    (m index : ℕ)
    → index < word
    → let (order, i) = bucket_at_order m index in
      (i < order_len m order)
      × (order ≡ order_of m index)
      × (index ≡ (if order == 0 then i else 2 ^ (order - 1) + i))
unfolding bucket_at_order order_of
bucket_at_order-inside m index w = elim (Bool-cases (ltb index (2 ^ m))) [
  | inl e ↦ rw e (ground arith, refl, refl)
  | inr e ↦
      let o = above m index (ground arith) w in
      let (p, l, lo, hi) =
        fls_u64-bounds index (omega (arith, pow_positive m, le_of_ltb index (2 ^ m) e)) w in
      let z : (fls_u64 index == 0) ≡ false = ground arith in
      let y : ltb m (fls_u64 index) ≡ true = ground arith in
      rw (e, z, y)
        (
          mod-lt index (pow_positive (fls_u64 index - 1)),
          refl,
          mod_once (2 ^ (fls_u64 index - 1)) index lo (omega (arith, halved (fls_u64 index) p)),
        )
]

allocated :
    (m r c : ℕ)
    → 0 < r
    → m < r
    → 2 ^ (r - 1 - m) ≤ c
    → c < 2 * 2 ^ (r - 1 - m)
    → allocates_chunk m r c ≡ true
allocated m r c p o a b = ground arith

-- In the layout by chunks, a bucket is inside of its chunk, which is allocated with the bucket's
-- order; the chunk and the offset tell the bucket.
pub bucket_at_chunk-inside :
    (m index : ℕ)
    → index < word
    → let (chunk, offset) = bucket_at_chunk m index in
      (offset < 2 ^ m)
      × (allocates_chunk m (order_of m index) chunk ≡ true)
      × (index ≡ chunk * 2 ^ m + offset)
unfolding bucket_at_chunk order_of
bucket_at_chunk-inside m index w =
    let d = div-add-mod index (2 ^ m) in
    (
      mod-lt index (pow_positive m),
      elim (Bool-cases (ltb index (2 ^ m))) [
        | inl e ↦ rw (e, div-eq_of_lt (lt_of_ltb index (2 ^ m) e)) refl
        | inr e ↦
            let o = above m index (le_of_ltb index (2 ^ m) e) w in
            let r = fls_u64 index in
            let (p, l, lo, hi) =
              fls_u64-bounds index (omega (arith, pow_positive m, le_of_ltb index (2 ^ m) e)) w in
            let k : r - 1 - m + m ≡ r - 1 = omega arith in
            let s : 2 ^ (r - 1 - m) * 2 ^ m ≡ 2 ^ (r - 1) =
              sym (pow_add 2 (r - 1 - m) m) ∙ ap (λ n. 2 ^ n) k in
            let c =
              quotient_bounds (2 ^ m) (index / 2 ^ m) (index % 2 ^ m) index (2 ^ (r - 1 - m)) d
                (mod-lt index (pow_positive m)) (omega arith) (omega (arith, halved r p)) in
            rw e (allocated m r (index / 2 ^ m) p o c.0 c.1)
      ],
      sym d ∙ omega arith,
    )
