-- ===== src/CallRcu.antt =====
-- `call_rcu` and the threads that run its callbacks: src/urcu-call-rcu-impl.h.
pub mod Thread
mod Futex
mod WakeUp
mod Order
mod Stop
mod Data
mod Lifetime
mod Selection
mod Cpus
mod Fills
mod CreateAll
mod Callbacks
mod Free
mod Child
mod Barrier
mod Completion
mod Tests
mod DataTests
