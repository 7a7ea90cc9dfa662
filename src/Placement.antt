-- ===== src/Placement.antt =====
-- The order of the CPUs that a pool pins its threads to, of include/citor/detail/topology.h.
pub mod Defs
pub mod Extends
pub mod Counts
pub mod Order
pub mod Preferred
mod Tests
