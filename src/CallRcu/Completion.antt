-- ===== src/CallRcu/Completion.antt =====
-- The counts of a `struct call_rcu_completion` while its works are invoked:
-- src/urcu-call-rcu-impl.h.
pub mod Step
pub mod Return
use userspace_rcu.Prelude.{
  ℕ, zero, suc, ◌+◌, ◌^◌, ◌<◌, ◌%◌, ◌≡◌, ◌≢◌, ◌⊎◌, inl, inr, refl, Bool, true, false, not, ◌&&◌,
  ◌||◌, List, [], ◌∷◌, ◌==◌, if◌then◌else◌, has, update, length, sub_word, word, distinct, arith,
  Bool-cases, sym, ap, ◌∙◌, replicate,
}
use userspace_rcu.CallRcu.Thread.{minus_one, decrement}
use userspace_rcu.CallRcu.Barrier.{
  Place, arm, test, wait, call, asleep, put, returned, Work, queued, looking, resetting, calling,
  putting, done, State, touch, ref_put, barrier_step, woken, set_work, work_step, Event, barrier,
  interrupt, complete, step, run, queue_works,
}

abbrev pub is_queued : Work → Bool
is_queued queued = true
is_queued _ = false

abbrev pub is_done : Work → Bool
is_done done = true
is_done _ = false

abbrev pub is_coming : Work → Bool
is_coming looking = true
is_coming resetting = true
is_coming _ = false

abbrev pub is_waiting : Place → Bool
is_waiting wait = true
is_waiting call = true
is_waiting asleep = true
is_waiting _ = false

abbrev pub is_asleep : Place → Bool
is_asleep asleep = true
is_asleep _ = false

abbrev pub is_arm : Place → Bool
is_arm arm = true
is_arm _ = false

abbrev pub has_returned : Place → Bool
has_returned returned = true
has_returned _ = false

abbrev pub is_behind : Place → Bool
is_behind put = true
is_behind returned = true
is_behind _ = false

-- how many works of a list satisfy a test
abbrev pub number : (Work → Bool) → (ℕ → Work) → List ℕ → ℕ
number p f [] = 0
number p f (i ∷ l) = (if p (f i) then 1 else 0) + number p f l

pub number-absent :
    (p : Work → Bool) (f : ℕ → Work) (i : ℕ) (w : Work) (l : List ℕ)
    → has i l ≡ false
    → number p (update f i w) l ≡ number p f l
number-absent p f i w [] a = refl
number-absent p f i w (j ∷ l) a = ground (arith, number-absent p f i w l)

pub number-update :
    (p : Work → Bool) (f : ℕ → Work) (i : ℕ) (w : Work) (l : List ℕ)
    → distinct l ≡ true
    → has i l ≡ true
    → number p (update f i w) l + (if p (f i) then 1 else 0) ≡ number p f l + (if p w then 1 else 0)
number-update p f i w [] u m = ground arith
number-update p f i w (j ∷ l) u m = elim (Bool-cases (i == j)) [
  | inl same ↦ ground (arith, number-absent p f i w l)
  | inr other ↦ ground (arith, number-update p f i w l)
]

pub number-positive :
    (p : Work → Bool) (f : ℕ → Work) (i : ℕ) (l : List ℕ)
    → has i l ≡ true
    → p (f i) ≡ true
    → 0 < number p f l
number-positive p f i [] m q = ground arith
number-positive p f i (j ∷ l) m q = ground (arith, number-positive p f i l)

pub number-bound : (p : Work → Bool) (f : ℕ → Work) (l : List ℕ) → number p f l < suc (length l)
number-bound p f [] = omega arith
number-bound p f (j ∷ l) = ground (arith, number-bound p f l)

pub record Inv (l : List ℕ) (s : State) : Type 0 where
  pub count : s.barrier_count ≡ number is_queued s.work l
  pub holders :
      s.ref ≡ number (λ w. not (is_done w)) s.work l + (if has_returned s.place then 0 else 1)
  pub freed : s.freed ≡ (s.ref == 0)
  pub misused : s.misused ≡ false
  pub word : (s.futex ≡ 0) ⊎ (s.futex ≡ minus_one)
  pub reset : is_arm s.place ≡ true → s.futex ≡ 0
  pub behind : is_behind s.place ≡ true → s.barrier_count ≡ 0
  pub alarm :
      is_waiting s.place ≡ true
      → s.barrier_count ≡ 0
      → (s.futex ≢ minus_one) ⊎ ((i : ℕ) × (is_coming (s.work i) ≡ true))
  pub wake_up : is_asleep s.place ≡ true → (s.futex ≡ minus_one) ⊎ ((i : ℕ) × (s.work i ≡ calling))
  pub absent : (i : ℕ) → has i l ≡ false → s.work i ≡ done
