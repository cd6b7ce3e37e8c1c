-- ===== src/Ref.antt =====
-- Reference counts: include/urcu/ref.h. Threads interleave at their accesses of the counter.
mod Count
mod Tests
use userspace_rcu.Prelude.{
  ℕ, ◌+◌, ◌-◌, ◌^◌, Bool, true, false, ◌&&◌, ◌||◌, ◌==◌, if◌then◌else◌, update,
}

abbrev pub long_max : ℕ
long_max = 2 ^ 63 - 1

-- `urcu_ref_get_safe`, `urcu_ref_get` and `urcu_ref_get_unless_zero`
pub data Kind : Type 0 where
  get_safe : Kind
  get : Kind
  get_unless_zero : Kind

-- Where a thread stands: `trying k old` is before the cmpxchg that expects `old`.
pub data Getter : Type 0 where
  outside : Getter
  trying : (kind : Kind) (old : ℕ) → Getter
  got : (success : Bool) → Getter
  aborted : Getter

-- `released` counts the calls of `release`, and `asserted` is whether the assertion in
-- `urcu_ref_put` has failed.
pub record State : Type 0 where
  pub refcount : ℕ
  pub getter : ℕ → Getter
  pub released : ℕ
  pub asserted : Bool

-- `urcu_ref_init`
abbrev pub urcu_ref_init : State
urcu_ref_init = record { refcount = 1; getter = λ i. outside; released = 0; asserted = false }

-- what a failure to get a reference comes to
abbrev pub failure : Kind → Getter
failure get_safe = got false
failure get = aborted
failure get_unless_zero = got false

-- the value for which a kind gives up besides LONG_MAX
abbrev pub gives_up : Kind → ℕ → Bool
gives_up get_unless_zero old = (old == 0) || (old == long_max)
gives_up _ old = old == long_max

-- the test at the head of the loop
abbrev pub round : Kind → ℕ → Getter
round k old = if gives_up k old then failure k else trying k old

-- the first load
unfoldable pub load : (i : ℕ) → Kind → State → State
load i k s = record s { getter = update s.getter i (round k s.refcount) }

-- the cmpxchg of the thread `i` that stands there
unfoldable pub exchange : (i : ℕ) → Getter → State → State
exchange i (trying k old) s =
    if s.refcount == old
    then record s { refcount = old + 1; getter = update s.getter i (got true) }
    else record s { getter = update s.getter i (round k s.refcount) }
exchange i _ s = s

unfoldable pub urcu_ref_put : State → State
urcu_ref_put s = if s.refcount == 0 then record s { asserted = true } else record s {
  refcount = s.refcount - 1;
  released = if s.refcount - 1 == 0 then s.released + 1 else s.released;
}

pub data Event : Type 0 where
  begin : (i : ℕ) → Kind → Event
  go : (i : ℕ) → Event
  put : Event

unfoldable pub step : Event → State → State
step (begin i k) s = load i k s
step (go i) s = exchange i (s.getter i) s
step put s = urcu_ref_put s
