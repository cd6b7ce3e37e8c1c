-- ===== src/Ref/Count.antt =====
-- The counter is the number of references, and the object is released once.
use userspace_rcu.Prelude.{
  ℕ, ◌+◌, ◌-◌, ◌≤◌, ◌<◌, ◌≡◌, refl, Bool, true, false, not, ◌||◌, ◌==◌, if◌then◌else◌, update, List,
  [], ◌∷◌, arith, Bool-cases, inl, inr,
}
use userspace_rcu.Ref.{
  long_max, Kind, get_safe, get, get_unless_zero, Getter, outside, trying, got, aborted, State,
  gives_up, round, load, exchange, urcu_ref_put, Event, begin, go, put, step,
}

-- a thread tries for a number that its kind does not give up at
abbrev pub proceeds : Getter → Bool
proceeds (trying k old) = not (gives_up k old)
proceeds _ = true

-- `held` references exist
abbrev pub Counts : State → ℕ → Type 0
Counts s held =
    (s.refcount ≡ held)
    × (held ≤ long_max)
    × (s.released ≡ (if held == 0 then 1 else 0))
    × (s.asserted ≡ false)
    × ((i : ℕ) → proceeds (s.getter i) ≡ true)

-- the references that exist after a thread's cmpxchg
abbrev pub after_exchange : Getter → State → ℕ → ℕ
after_exchange (trying k old) s held = if s.refcount == old then held + 1 else held
after_exchange _ s held = held

abbrev pub after : Event → State → ℕ → ℕ
after (begin i k) s held = held
after (go i) s held = after_exchange (s.getter i) s held
after put s held = held - 1

-- A thread gets another reference only while it has one, except by get_unless_zero.
abbrev pub MayTry : Getter → ℕ → Type 0
MayTry (trying get_unless_zero old) held = true ≡ true
MayTry (trying _ old) held = 0 < held
MayTry _ held = true ≡ true

abbrev pub Allowed : Event → State → ℕ → Type 0
Allowed (begin i k) s held = true ≡ true
Allowed (go i) s held = MayTry (s.getter i) held
Allowed put s held = 0 < held

proceeds-round : (k : Kind) (old : ℕ) → proceeds (round k old) ≡ true
proceeds-round get_safe old = elim (Bool-cases (old == long_max)) [
  | inl e ↦ rw e refl
  | inr e ↦ rw (e, e) refl
]
proceeds-round get old = elim (Bool-cases (old == long_max)) [
  | inl e ↦ rw e refl
  | inr e ↦ rw (e, e) refl
]
proceeds-round get_unless_zero old = elim (Bool-cases ((old == 0) || (old == long_max))) [
  | inl e ↦ rw e refl
  | inr e ↦ rw (e, e) refl
]

proceeds-update :
    (f : ℕ → Getter) (i : ℕ) (q : Getter)
    → proceeds q ≡ true
    → ((j : ℕ) → proceeds (f j) ≡ true)
    → (j : ℕ) → proceeds (update f i q j) ≡ true
proceeds-update f i q p a j = elim (Bool-cases (i == j)) [ inl e ↦ rw e p | inr e ↦ rw e (a j) ]

-- a cmpxchg that succeeds neither revives an object nor overflows
try-bounds :
    (k : Kind) (old held : ℕ)
    → proceeds (trying k old) ≡ true
    → MayTry (trying k old) held
    → held ≡ old
    → held ≤ long_max
    → (0 < held) × (held < long_max)
try-bounds get_safe old held p m e l = (m, ground arith)
try-bounds get old held p m e l = (m, ground arith)
try-bounds get_unless_zero old held p m e l = (ground arith, ground arith)

exchange-Counts :
    (i : ℕ) (q : Getter) (s : State) (held : ℕ)
    → proceeds q ≡ true
    → MayTry q held
    → Counts s held
    → Counts (exchange i q s) (after_exchange q s held)
unfolding exchange
exchange-Counts i outside s held p m c = c
exchange-Counts i (got b) s held p m c = c
exchange-Counts i aborted s held p m c = c
exchange-Counts i (trying k old) s held p m (r, l, d, a, g) =
    elim (Bool-cases (s.refcount == old)) [
      | inl e ↦
          let b = try-bounds k old held p m (ground arith) l in
          rw e (
            ground arith,
            omega (arith, b.1),
            ground (arith, b.0),
            a,
            proceeds-update s.getter i (got true) refl g,
          )
      | inr e ↦ rw e (
        r,
        l,
        d,
        a,
        proceeds-update s.getter i (round k s.refcount) (proceeds-round k s.refcount) g,
      )
    ]

put-Counts : (s : State) (held : ℕ) → 0 < held → Counts s held → Counts (urcu_ref_put s) (held - 1)
unfolding urcu_ref_put
put-Counts s held h (r, l, d, a, g) =
    let e : (s.refcount == 0) ≡ false = ground arith in
    rw e (ground arith, ground arith, ground arith, a, g)

pub step-Counts :
    (e : Event) (s : State) (held : ℕ)
    → Counts s held
    → Allowed e s held
    → Counts (step e s) (after e s held)
unfolding step load
step-Counts (begin i k) s held (r, l, d, a, g) w =
    (r, l, d, a, proceeds-update s.getter i (round k s.refcount) (proceeds-round k s.refcount) g)
step-Counts (go i) s held c w = exchange-Counts i (s.getter i) s held (c.4 i) w c
step-Counts put s held c w = put-Counts s held w c

unfoldable pub run : List Event → State → State
run [] s = s
run (e ∷ es) s = run es (step e s)

abbrev pub held_after : List Event → State → ℕ → ℕ
held_after [] s held = held
held_after (e ∷ es) s held = held_after es (step e s) (after e s held)

abbrev pub AllAllowed : List Event → State → ℕ → Type 0
AllAllowed [] s held = true ≡ true
AllAllowed (e ∷ es) s held = Allowed e s held × AllAllowed es (step e s) (after e s held)

-- In any interleaving in which a thread puts a reference that exists, and gets one while one exists
-- or by get_unless_zero: the counter is the number of references and is at most LONG_MAX, the object
-- has been released once if there is none and not at all if there is one, and the assertion of
-- urcu_ref_put has not failed.
pub run-Counts :
    (es : List Event) (s : State) (held : ℕ)
    → Counts s held
    → AllAllowed es s held
    → Counts (run es s) (held_after es s held)
unfolding run
run-Counts [] s held c w = c
run-Counts (e ∷ es) s held c (a, w) =
    run-Counts es (step e s) (after e s held) (step-Counts e s held c a) w
