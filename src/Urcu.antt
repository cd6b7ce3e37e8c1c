-- ===== src/Urcu.antt =====
-- Grace periods: src/urcu.c in its RCU_MB flavour, with the read side of
-- include/urcu/static/urcu-mb.h and include/urcu/static/urcu-common.h.
pub mod Reader
pub mod Updater
pub mod System
pub mod Progress
pub mod Invariant
pub mod GracePeriod
mod Tests
