-- ===== src/Scheduler/Preservation.antt =====
-- Every operation keeps the scheduler's invariant.
pub mod Ready
pub mod Dispatch
pub mod Exit
pub mod Wait
pub mod Block
