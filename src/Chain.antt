-- ===== src/Chain.antt =====
-- `parallelChain` of include/citor/thread_pool.h, on the state of
-- include/citor/detail/chain_state.h.
pub mod Defs
pub mod Roles
pub mod Steps
pub mod Progress
pub mod Bound
pub mod Ends
pub mod Order
pub mod Once
pub mod Dynamic
mod Tests
