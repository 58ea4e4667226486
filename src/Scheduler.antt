-- ===== src/Scheduler.antt =====
-- The architecture-independent scheduler, kernel/src/scheduler.
pub mod Task
pub mod Execution
pub mod Reschedule
pub mod RunQueue
pub mod WaitQueue
pub mod SleepQueue
pub mod State
pub mod Ops
pub mod Waiting
pub mod Slots
pub mod Invariant
pub mod Preservation
pub mod Creation
pub mod Kept
pub mod Reach
