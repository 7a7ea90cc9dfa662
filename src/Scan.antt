-- ===== src/Scan.antt =====
-- parallelScan: the scan in two passes, and how a tile of the one in a single pass finds the total
-- of what lies before it.
pub mod Lookback
pub mod TwoPass
mod Tests
