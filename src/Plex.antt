-- ===== src/Plex.antt =====
-- `runPlexParallel` of include/citor/thread_pool.h, on the state of include/citor/detail/plex_state.h.
pub mod Defs
pub mod Roles
pub mod Moves
pub mod LeadSteps
pub mod Steps
pub mod Phases
pub mod Progress
pub mod Bound
pub mod Ends
pub mod Counted
pub mod Once
mod Tests
