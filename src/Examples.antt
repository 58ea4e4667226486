-- ===== src/Examples.antt =====
-- Concrete runs of each part, at which the theorems apply.
mod SchedulerRuns
mod QueueRuns
mod MemoryRuns
mod ProcessRuns
mod ImageRuns
mod LaunchRuns
mod PopulateRuns
mod SyscallRuns
mod SystemRuns
