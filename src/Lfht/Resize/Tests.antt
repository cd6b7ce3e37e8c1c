-- ===== src/Lfht/Resize/Tests.antt =====
-- Runs of the requests to resize.
use userspace_rcu.Prelude.{◌≡◌, refl, false, List, [], ◌∷◌}
use userspace_rcu.Lfht.Size.{fls_u64, narrow}
use userspace_rcu.Lfht.Resize.{
  asked, idle, Table, work, ask, lazy_grow, Event, call_grow, go_ask, go_work, step, run,
}

abbrev fresh : Table
fresh = record {
  size = 1;
  resize_target = 1;
  max_nr_buckets = 64;
  resize_initiated = false;
  in_progress_destroy = false;
  works = 0;
  worker = idle;
  asker = λ i. asked;
}

-- One thread asks for two buckets and queues a work, which the worker does before the thread goes on.
abbrev overtaken : List Event
overtaken =
    call_grow 1 1 1
    ∷ go_ask 1
    ∷ go_ask 1
    ∷ go_ask 1
    ∷ go_ask 1
    ∷ go_ask 1
    ∷ go_work
    ∷ go_work
    ∷ go_work
    ∷ go_work
    ∷ go_work
    ∷ go_work
    ∷ go_work
    ∷ go_work
    ∷ go_work
    ∷ go_work
    ∷ []

overtaken_size : (run overtaken fresh).size ≡ 2
unfolding run step ask work lazy_grow fls_u64 narrow
overtaken_size = refl

abbrev stale : Table
stale = run (go_ask 1 ∷ []) (run overtaken fresh)

-- another thread then asks for eight
abbrev neglected : List Event
neglected = call_grow 2 2 2 ∷ go_ask 2 ∷ go_ask 2 ∷ go_ask 2 ∷ go_work ∷ []

neglected_target : (run neglected stale).resize_target ≡ 8
unfolding run step ask work lazy_grow fls_u64 narrow
neglected_target = refl

neglected_returned : (run neglected stale).asker 2 ≡ asked
unfolding run step ask work lazy_grow fls_u64 narrow
neglected_returned = refl
