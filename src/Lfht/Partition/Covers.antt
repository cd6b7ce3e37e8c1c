-- ===== src/Lfht/Partition/Covers.antt =====
-- The parts of a pass of src/rculfhash.c cover its buckets, each once.
use native.Mathlib.Nat.{pow-le-pow_right, mul-div_cancel, one-le-pow, pow-suc, zero-mul, mul_comm}
use userspace_rcu.Prelude.{
  ℕ, zero, suc, ◌+◌, ◌-◌, ◌*◌, ◌/◌, ◌^◌, ◌≤◌, ◌<◌, ◌≡◌, refl, Bool, true, false, not, ◌&&◌, ◌||◌,
  ◌==◌, ltb, Option, none, some, List, [], ◌∷◌, ◌++◌, arith, if-cases, sym, ap, ◌∙◌, Bool-cases,
  inl, inr,
}
use userspace_rcu.Lfht.Size.{fls_u64}
use userspace_rcu.Lfht.Order.{fls_u64-bounds, pow_add}
use userspace_rcu.Lfht.Partition.{
  Part, nr_threads, spawn, leftovers, joined, partition_resize_helper, min_partition_per_thread,
}

-- the parts follow one another, from one index up to another
abbrev pub Consecutive : (start : ℕ) → List Part → (end : ℕ) → Type 0
Consecutive s [] e = s ≡ e
Consecutive s ((a, l) ∷ ps) e = (s ≡ a) × Consecutive (a + l) ps e

Consecutive-append :
    (s m e : ℕ) (ps qs : List Part)
    → Consecutive s ps m
    → Consecutive m qs e
    → Consecutive s (ps ++ qs) e
Consecutive-append s m e [] qs p q = rw p q
Consecutive-append s m e ((a, l) ∷ ps) qs (p, r) q = (p, Consecutive-append (a + l) m e ps qs r q)

-- the order of a power of two is its exponent
pub fls_u64-power : (k : ℕ) → k ≤ 63 → fls_u64 (2 ^ k - 1) ≡ k
fls_u64-power zero h = unfold fls_u64 in refl
fls_u64-power (suc k) h =
    let two : 2 ^ suc k ≡ 2 ^ k * 2 = pow-suc 2 k in
    let one : 1 ≤ 2 ^ k = one-le-pow k 2 (omega arith) in
    let top : 2 ^ suc k ≤ 2 ^ 63 = pow-le-pow_right (omega arith) h in
    let r = fls_u64 (2 ^ suc k - 1) in
    let b = fls_u64-bounds (2 ^ suc k - 1) (omega arith) (omega arith) in
    elim (Bool-cases (ltb r (suc k))) [
      | inl e ↦
          let low : 2 ^ r ≤ 2 ^ k = pow-le-pow_right (omega arith) (ground arith) in
          absurd (omega arith)
      | inr e ↦ elim (Bool-cases (ltb (suc k) r)) [
        | inl f ↦
            let high : 2 ^ suc k ≤ 2 ^ (r - 1) = pow-le-pow_right (omega arith) (ground arith) in
            absurd (omega arith)
        | inr f ↦ ground arith
      ]
    ]

module _ (created : ℕ → Bool) (l : ℕ) where
  -- where the threads' parts end
  stops : (last : ℕ) → Option ℕ → ℕ
  stops last none = last * l
  stops last (some u) = u * l

  spawn-Consecutive :
      (last t left : ℕ)
      → last ≡ t + left
      → Consecutive (t * l) (spawn created l t left).0 (stops last (spawn created l t left).1)
  unfolding spawn stops
  spawn-Consecutive last t zero e = ap (λ n. n * l) (omega arith)
  spawn-Consecutive last t (suc n) e =
      let next : (t + 1) * l ≡ t * l + l = grind arith in
      if-cases (λ (p : List Part × Option ℕ). Consecutive (t * l) p.0 (stops last p.1)) (created t)
        (λ _. (refl, rw next at (spawn-Consecutive last (t + 1) n (omega arith)))) (λ _. refl)

  spawn-le : (t left u : ℕ) → (spawn created l t left).1 ≡ some u → u ≤ t + left
  unfolding spawn
  spawn-le t zero u e = ground arith
  spawn-le t (suc n) u e = ground (arith, spawn-le (t + 1) n u)

  joined-Consecutive :
      (len nr : ℕ) (p : List Part × Option ℕ)
      → nr * l ≡ len
      → 0 < nr
      → 0 < l
      → ((u : ℕ) → p.1 ≡ some u → u ≤ nr)
      → Consecutive 0 p.0 (stops nr p.1)
      → Consecutive 0 (joined l len nr p) len
  unfolding joined stops leftovers
  joined-Consecutive len nr (ps, none) e z zl b c =
      let f : ((0 == 0) && ltb 0 nr) ≡ true = ground arith in
      let q : Consecutive 0 (ps ++ []) len = Consecutive-append 0 (nr * l) len ps [] c e in rw f q
  joined-Consecutive len nr (ps, some u) e z zl b c =
      let most : u * l ≤ nr * l = grind (arith, b u refl) in
      let whole : u * l + (len - u * l) ≡ len = omega arith in
      let f : ((u * l == 0) && ltb 0 u) ≡ false = grind arith in
      let q = Consecutive-append 0 (u * l) len ps ((u * l, len - u * l) ∷ []) c (refl, whole) in
      rw f q

  assembled :
      (len nr : ℕ)
      → nr * l ≡ len
      → 0 < nr
      → 0 < l
      → Consecutive 0 (joined l len nr (spawn created l 0 nr)) len
  assembled len nr e z zl =
      let none_yet : 0 * l ≡ 0 = zero-mul l in
      joined-Consecutive len nr (spawn created l 0 nr) e z zl
        (λ u g. omega (arith, spawn-le 0 nr u g))
        (rw none_yet at (spawn-Consecutive nr 0 nr (omega arith)))

-- `ht_init_nr_cpus_mask` rounds the number of CPUs up to a power of two.
abbrev pub IsMask : Option ℕ → Type 0
IsMask none = true ≡ true
IsMask (some k) = (m : ℕ) × ((m ≤ 63) × (k + 1 ≡ 2 ^ m))

-- quotients and orders of powers of two
power-quotient : (n j : ℕ) → j ≤ n → (2 ^ (n - j) * 2 ^ j ≡ 2 ^ n) × (2 ^ n / 2 ^ j ≡ 2 ^ (n - j))
power-quotient n j h =
    let whole : 2 ^ (n - j) * 2 ^ j ≡ 2 ^ n =
      sym (pow_add 2 (n - j) j) ∙ ap (λ t. 2 ^ t) (omega arith) in
    (
      whole,
      ap (λ t. t / 2 ^ j) (sym whole) ∙ mul-div_cancel (2 ^ (n - j)) (one-le-pow j 2 (omega arith)),
    )

le_of_power : (m n : ℕ) → 2 ^ m ≤ 2 ^ n → m ≤ n
le_of_power m n h = elim (Bool-cases (ltb n m)) [
  | inl e ↦
      let more : 2 ^ suc n ≤ 2 ^ m = pow-le-pow_right (omega arith) (ground arith) in
      let two : 2 ^ suc n ≡ 2 ^ n * 2 = pow-suc 2 n in
      let one : 1 ≤ 2 ^ n = one-le-pow n 2 (omega arith) in absurd (omega arith)
  | inr e ↦ ground arith
]

nr_threads-power :
    (k n : ℕ)
    → (m : ℕ) × ((m ≤ 63) × (k + 1 ≡ 2 ^ m))
    → 13 ≤ n
    → n ≤ 63
    → (j : ℕ) × ((nr_threads k (2 ^ n) ≡ 2 ^ j) × (j ≤ n))
unfolding nr_threads
nr_threads-power k n (m, (b, e)) l h =
    let wanted : 2 ^ n / 2 ^ 12 ≡ 2 ^ (n - 12) = (power-quotient n 12 (omega arith)).1 in
    elim (Bool-cases (k == 0)) [
      | inl f ↦ (0, (rw f refl, omega arith))
      | inr f ↦ elim (Bool-cases (ltb (k + 1) (2 ^ n / 2 ^ 12))) [
        | inl g ↦ (
          m,
          (
            rw (f, g) e,
            (let less : 2 ^ m ≤ 2 ^ (n - 12) = ground (arith, e, wanted) in
                let le : m ≤ n - 12 = le_of_power m (n - 12) less in omega arith),
          ),
        )
        | inr g ↦ (n - 12, (rw (f, g) wanted, omega arith))
      ]
    ]

-- Of a pass over a power of two of buckets, with any number of CPUs, whichever threads cannot be
-- created and whether or not memory is there, `partition_resize_helper` makes good each bucket
-- exactly once.
pub parts-cover :
    (mask : Option ℕ) (n : ℕ) (allocated : Bool) (created : ℕ → Bool)
    → IsMask mask
    → n ≤ 63
    → Consecutive 0 (partition_resize_helper mask (2 ^ n) allocated created) (2 ^ n)
unfolding partition_resize_helper
parts-cover none n a created m h = (refl, omega arith)
parts-cover (some k) n a created m h =
    if-cases (λ ps. Consecutive 0 ps (2 ^ n)) (ltb (2 ^ n) (2 * min_partition_per_thread) || not a)
      (λ _. (refl, omega arith))
      (λ e.
        let low : 2 ^ 13 ≤ 2 ^ n = ground arith in
        let big : 13 ≤ n = le_of_power 13 n low in
        let (j, (f, b)) = nr_threads-power k n m big h in
        let nr = nr_threads k (2 ^ n) in
        let l = 2 ^ n / 2 ^ fls_u64 (nr - 1) in
        let order : fls_u64 (nr - 1) ≡ j =
          ap (λ t. fls_u64 (t - 1)) f ∙ fls_u64-power j (omega arith) in
        let q = power-quotient n j b in
        let part : l ≡ 2 ^ (n - j) = ap (λ t. 2 ^ n / 2 ^ t) order ∙ q.1 in
        let some_part : 0 < l = rw part (one-le-pow (n - j) 2 (omega arith)) in
        let some_nr : 0 < nr = rw f (one-le-pow j 2 (omega arith)) in
        let whole : nr * l ≡ 2 ^ n =
          ap (λ t. nr * t) part
          ∙ (ap (λ t. t * 2 ^ (n - j)) f ∙ (mul_comm (2 ^ j) (2 ^ (n - j)) ∙ q.0)) in
        assembled created l (2 ^ n) nr whole some_nr some_part)
