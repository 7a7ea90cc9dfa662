-- ===== src/Slots.antt =====
-- How parallelChain, runPlex and parallelScan split [0, n) into one range per slot:
-- include/citor/detail/chain_state.h, plex_state.h and scan_state.h.
pub mod Defs
pub mod Split
pub mod Uniform
pub mod Asymmetric
mod Tests
