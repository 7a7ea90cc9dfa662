-- ===== src/Probe.antt =====
-- The coherence probe of include/citor/detail/coherence_probe.h: its blob and its cache.
pub mod Bytes
pub mod Defs
pub mod RoundTrip
pub mod Reject
pub mod Key
pub mod Cache
mod Tests
