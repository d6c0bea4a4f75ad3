-- ===== src/Config.antt =====
-- Configuration of the operations: sdk/src/config.rs.
pub mod Retry
