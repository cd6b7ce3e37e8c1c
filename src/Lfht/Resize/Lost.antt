-- ===== src/Lfht/Resize/Lost.antt =====
-- A request to resize the hash table of src/rculfhash.c that no worker serves.
use userspace_rcu.Prelude.{ℕ, ◌≡◌, Bool, true, false}
use userspace_rcu.Lfht.Resize.{Asker, launch_destroy, launch_queue, idle, Table}

-- the thread is between its look at `resize_initiated` and the store to it
abbrev pub is_queuing : Asker → Bool
is_queuing launch_destroy = true
is_queuing launch_queue = true
is_queuing _ = false

-- `resize_initiated` is set, but no work is queued and the worker has none
pub record IsStale (t : Table) : Type 0 where
  pub at_rest : t.worker ≡ idle
  pub no_work : t.works ≡ 0
  pub initiated : t.resize_initiated ≡ true
  pub not_queuing : (i : ℕ) → is_queuing (t.asker i) ≡ false

-- a step keeps it, and the size
abbrev Stays : (t u : Table) → Type 0
Stays t u = IsStale u × (u.size ≡ t.size)
