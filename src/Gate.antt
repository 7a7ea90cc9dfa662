-- ===== src/Gate.antt =====
-- The dispatch gate of include/citor/thread_pool.h on Windows: a lock word with a waiter bit.
pub mod Defs
pub mod Exclusion
pub mod Wake
pub mod Progress
mod Tests
