-- ===== src/Deque.antt =====
-- include/citor/detail/chase_lev_deque.h: the Chase-Lev work-stealing deque.
pub mod Array
pub mod Window
pub mod Defs
pub mod Spec
pub mod Refine
pub mod Alone
pub mod Protocol
mod Tests
