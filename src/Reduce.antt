-- ===== src/Reduce.antt =====
-- parallelReduce: the partial results of the chunks and the tree that combines them.
pub mod Tree
pub mod Fold
pub mod Inline
pub mod Parallel
mod Tests
