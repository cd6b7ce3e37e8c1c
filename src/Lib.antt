-- ===== src/Lib.antt =====
-- Verification of the userspace RCU library (liburcu): models of its C sources and the theorems that
-- make them correct.
--
-- The program. A reader brackets its accesses by `rcu_read_lock` and `rcu_read_unlock`; an updater
-- that has unlinked something calls `synchronize_rcu`, which returns only when all readers that were
-- inside have left. On top of it stand grace-period polling (a worker callback that re-queues
-- itself), deferred callbacks (a ring of encoded function and argument pairs per thread), and
-- `call_rcu`, which hands a callback to a thread that invokes it behind a grace period. Calls of
-- `synchronize_rcu` that come together are served by one of them. The library comes with lists that
-- readers walk while they change, with a queue that any number of threads append to without waiting
-- while one takes nodes off, with a lock-free and a wait-free stack, and with a hash table whose
-- nodes are on one list, in the order of their reversed hashes, to which its buckets point.
--
-- The files, by what they model.
--   Urcu: src/urcu.c in its RCU_MB flavour, with include/urcu/static/urcu-mb.h and
--     include/urcu/static/urcu-common.h. `Urcu.Reader` has what one reader does up to its next
--     access of shared memory (`read_lock`, `read_unlock`, then `resume` for the store and for
--     `urcu_common_wake_up_gp`), `Urcu.Updater` the thread that holds `rcu_gp_lock`: its `Place` is
--     the place in `synchronize_rcu`, `wait_for_readers` and `wait_gp`, with their live locals, and
--     `updater` is its next step. `Urcu.System` interleaves any number of readers with it.
--     Below it, `Invariant`, `GracePeriod`, `GracePeriod.Alarm` and `Progress` have the proofs.
--   GpWait: src/urcu-wait.h. `wait_step` is `urcu_adaptative_busy_wait` and `wake_step` is
--     `urcu_adaptative_wake_up`, each up to its next access of the node that they share.
--     `GpWait.Queue` has the calls of `synchronize_rcu` in src/urcu.c together, with `gp_waiters` as a
--     list: `begin` is `urcu_wait_add`, `call_step` the next step of a call.
--   CallRcu: src/urcu-call-rcu-impl.h. `CallRcu.Thread` has one `struct call_rcu_data`:
--     `thread_step` is `call_rcu_thread` with `call_rcu_wait`, `begin` and `waker_step` are a thread in
--     `_call_rcu` or `wake_call_rcu_thread`, each up to its next shared access. `CallRcu.Data` and
--     `CallRcu.Lifetime` have the structures together, with the function names of the code; what the
--     thread of a structure still invokes before it stops is an argument there. `CallRcu.Barrier` has
--     the completion of `rcu_barrier`: `work_step` is `_rcu_barrier_complete`.
--   Poll: src/urcu-poll-impl.h. `Worker` is `struct urcu_poll_worker_state`; each function holds its
--     lock throughout and is one step.
--   Defer: src/urcu-defer-impl.h. `Queue` is `struct defer_queue`, `encode` and `defer_rcu` are
--     `_defer_rcu`, `drain` is the loop of `rcu_defer_barrier_queue`.
--   CdsList: include/urcu/list.h and include/urcu/rculist.h. `Links` is the two fields of every
--     `struct cds_list_head`; each function of list.h is its stores in order, and each of rculist.h
--     (`CdsList.Rcu`) is a list of stores, between any two of which readers run.
--   WfcQueue: include/urcu/static/wfcqueue.h. `exchange_tail` and `store_next` are the two halves of
--     `___cds_wfcq_append`, `dequeue` is `___cds_wfcq_dequeue_with_state` up to its next access.
--   LfStack: include/urcu/static/lfstack.h. `push` is a round of the loop of `_cds_lfs_push`, `pop` is
--     `___cds_lfs_pop` or `___cds_lfs_pop_all` up to its next access.
--   WfStack: include/urcu/static/wfstack.h. `push` and `store_link` are the two halves of
--     `_cds_wfs_push`, `pop` is `___cds_wfs_pop` or `___cds_wfs_pop_all` up to its next access.
--   Lfht: src/rculfhash.c. `Lfht.Chain` has the list of all nodes, with any number of threads in
--     `_cds_lfht_add` in its modes (`Mode`), `_cds_lfht_del`, `_cds_lfht_replace`,
--     `_cds_lfht_gc_bucket` and `cds_lfht_lookup`: `Lfht.Place` has the places between their accesses
--     of the words `next` (`Lfht.Links`), `go` makes an access and `begin` starts a call. A call has
--     its bucket as an argument; `Lfht.Mirror` has `lookup_bucket`, which names it. `Lfht.Resize` has
--     the requests to resize (`lazy_grow`, `lazy_count`, then `ask`) and the worker in
--     `_do_cds_lfht_resize` (`work`), at their accesses of the table's fields; `Lfht.Partition` has
--     `partition_resize_helper`. `Lfht.Bits` has the bit reversal, `Lfht.Size` the orders of sizes, and
--     `Lfht.Memory` the function `bucket_at` of src/rculfhash-mm-order.c and of
--     src/rculfhash-mm-chunk.c, where `order_len` and `allocates_chunk` say what is allocated.
--   Ref: include/urcu/ref.h. `load` and `exchange` are the load and the cmpxchg of the three functions
--     that get a reference, `urcu_ref_put` is one step.
--   Prelude: shared names, Boolean tests, lists, the arithmetic of `unsigned long`, sets of nodes.
--
-- Conventions. Numbers are native and the wrap-around of a 64-bit `unsigned long` is written out
-- (`add_word`, `sub_word`); an `int32_t` is its bit pattern. Masks and shifts by constants are `%`
-- and `/`. Shared memory is sequentially consistent: the barriers, which the program issues so that
-- its reasoning may suppose this, have no counterpart. Mutexes exclude, as documented. Node lists of
-- the updater (`cds_list`) are lists of thread numbers.
--
-- Fuel. `Defer.drain` takes one unit more than the words between the two indices, and a round takes
-- one word at least. The loops over a list take one unit more than the list has nodes, and a round
-- visits a node. Nothing else takes fuel.
--
-- Not modelled. Weak memory and the membarrier, bulletproof and QSBR flavours; of `call_rcu` the
-- affinity of its threads and the waits around a fork; the work queue; the splice of queues; of the
-- hash table its creation and destruction, the removal of buckets as it shrinks, the traversal of all
-- nodes and its counters of nodes; the RCU queue and stack and the hash lists; system calls. The other components take `call_rcu` as given.
pub mod Prelude
pub mod Poll
pub mod Urcu
pub mod Defer
pub mod CdsList
pub mod WfcQueue
pub mod LfStack
pub mod WfStack
pub mod Lfht
pub mod Ref
pub mod GpWait
pub mod CallRcu
