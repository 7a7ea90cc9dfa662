-- ===== src/Chain/Dynamic.antt =====
-- The dynamic path of `parallelChain` of include/citor/thread_pool.h.
pub mod Defs
pub mod Claims
pub mod Roles
pub mod Steps
pub mod Once
pub mod Progress
pub mod Bound
pub mod Ends
pub mod Chunks
mod Tests
