-- ===== src/Blocks.antt =====
-- The block schedules of include/citor/detail/dispatch_static.h.
pub mod Shape
pub mod Defs
pub mod Static
pub mod Cutoff
pub mod Contiguous
pub mod Dynamic
pub mod Ranks
mod Sizes
mod Hinted
mod Exceptions
mod Tests
