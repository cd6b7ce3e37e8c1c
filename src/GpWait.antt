-- ===== src/GpWait.antt =====
-- How a call of `synchronize_rcu` waits for another that serves it: src/urcu-wait.h and the queue
-- `gp_waiters` of src/urcu.c.
pub mod Node
mod Handshake
pub mod Queue
mod Owners
mod Serve
mod Batch
mod Tests
mod BatchTests
