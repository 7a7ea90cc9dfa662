-- ===== src/Scan/TwoPass.antt =====
-- `runScanParallel` of include/citor/thread_pool.h, on the state of
-- include/citor/detail/scan_state.h.
pub mod Defs
pub mod Reduce
pub mod Roles
pub mod Values
pub mod Moves
pub mod Seeds
pub mod Progress
pub mod Bound
pub mod Ends
mod Tests
