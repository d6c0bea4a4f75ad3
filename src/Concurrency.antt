-- ===== src/Concurrency.antt =====
-- The concurrent execution of map and parallel: sdk/src/concurrency.rs.
pub mod Counters
pub mod Batch
pub mod Executor
