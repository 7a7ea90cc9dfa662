-- ===== src/Token.antt =====
-- `CancellationToken` of include/citor/cancellation.h.
pub mod Defs
pub mod Stops
mod Tests
