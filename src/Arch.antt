-- ===== src/Arch.antt =====
-- The x86_64 layer, kernel/src/arch/x86_64: the execution state of tasks, and the runtimes that own
-- the scheduler, the processes and that state.
pub mod Slots
pub mod Interrupted
pub mod Context
pub mod Execution
pub mod UserExecution
pub mod UserRegistry
pub mod Registry
pub mod CpuLocal
pub mod KernelTask
pub mod Runtime
pub mod ProcessRuntime
pub mod System
