-- ===== src/Operation.antt =====
-- Operations and operation updates: sdk/src/operation.rs.
pub mod Kinds
pub mod Record
pub mod Update
