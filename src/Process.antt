-- ===== src/Process.antt =====
-- Processes, kernel/src/process: images, address spaces, the process registry and its binding to
-- the scheduler.
pub mod AddressSpace
pub mod Elf
pub mod LoadPlan
pub mod Identity
pub mod Image
pub mod Loader
pub mod Builder
pub mod Launch
pub mod Populate
pub mod Manager
pub mod Binding
pub mod Lifecycle
pub mod RamdiskImage
