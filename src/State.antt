-- ===== src/State.antt =====
-- The execution state: sdk/src/state/execution_state.rs. One call at a time is modelled: what two
-- tasks do to the state between two awaits of a third is not.
pub mod Model
pub mod Invariant
pub mod Cache
pub mod Checkpoint
pub mod Loading
pub mod Tracking
