-- ===== src/Dispatch.antt =====
-- How a dispatch reaches the workers' caches.
pub mod Reuse
pub mod Fresh
mod Tests
