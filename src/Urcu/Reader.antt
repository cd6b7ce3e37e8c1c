-- ===== src/Urcu/Reader.antt =====
-- The counters, and the read side: include/urcu/static/urcu-mb.h and
-- include/urcu/static/urcu-common.h. Each function is what one thread does up to its next access of
-- a variable that other threads use.
use userspace_rcu.Prelude.{ℕ, ◌-◌, ◌/◌, ◌%◌, ◌^◌, Bool, ◌==◌, if◌then◌else◌, add_word, sub_word}

abbrev pub gp_count : ℕ
gp_count = 1

-- half of the bits of a long
abbrev pub gp_ctr_phase : ℕ
gp_ctr_phase = 2 ^ 32

-- `v & URCU_GP_CTR_NEST_MASK`, the nesting depth
abbrev pub nest : ℕ → ℕ
nest v = v % gp_ctr_phase

-- the bit `v & URCU_GP_CTR_PHASE`, moved down
abbrev pub phase : ℕ → ℕ
phase v = v / gp_ctr_phase % 2

pub data ReaderState : Type 0 where
  active_current : ReaderState
  active_old : ReaderState
  inactive : ReaderState

-- `(v ^ gp->ctr) & URCU_GP_CTR_PHASE` is zero if the phase bits agree.
unfoldable pub reader_state : (gp_ctr v : ℕ) → ReaderState
reader_state gp_ctr v =
    if nest v == 0
    then inactive
    else (if phase v == phase gp_ctr then active_current else active_old)

-- -1 as an int32_t
abbrev pub minus_one : ℕ
minus_one = 2 ^ 32 - 1

-- Where a thread stands in `rcu_read_lock` or `rcu_read_unlock`.
pub data Pc : Type 0 where
  running : Pc  -- in neither
  locking : (gctr : ℕ) → Pc  -- before the store of `gctr` in `_urcu_mb_read_lock_update`
  waking : Pc  -- before the load of the futex in `urcu_common_wake_up_gp`
  resetting : Pc  -- before the store to the futex
  calling : Pc  -- before FUTEX_WAKE

-- `struct urcu_reader` with the place in the code
pub record Thread : Type 0 where
  pub ctr : ℕ
  pub registered : Bool
  pub pc : Pc

-- `_urcu_mb_read_lock`: an outermost lock has loaded `urcu_mb_gp.ctr` and has its store before it.
unfoldable pub read_lock : (gp_ctr : ℕ) → Thread → Thread
read_lock gp_ctr t =
    if nest t.ctr == 0
    then record t { pc = locking gp_ctr }
    else record t { ctr = add_word t.ctr gp_count }

-- `_urcu_mb_read_unlock`: an outermost unlock has `urcu_common_wake_up_gp` before it.
unfoldable pub read_unlock : Thread → Thread
read_unlock t =
    if nest t.ctr == gp_count
    then record t { ctr = sub_word t.ctr gp_count; pc = waking }
    else record t { ctr = sub_word t.ctr gp_count }

-- the next access of a thread that stands inside one of the two, given the futex
unfoldable pub resume : (futex : ℕ) → Pc → Thread → Thread
resume futex running t = t
resume futex (locking gctr) t = record t { ctr = gctr; pc = running }
resume futex waking t = record t { pc = if futex == minus_one then resetting else running }
resume futex resetting t = record t { pc = calling }
resume futex calling t = record t { pc = running }

-- what `resume` leaves in the futex: `uatomic_store(&gp->futex, 0)`
unfoldable pub reset : (futex : ℕ) → Pc → ℕ
reset futex resetting = 0
reset futex _ = futex
