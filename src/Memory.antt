-- ===== src/Memory.antt =====
-- Memory policy, kernel/src/memory: ranges, the user address space, frames and user memory access.
pub mod Ranges
pub mod Layout
pub mod Canonical
pub mod Page
pub mod Physical
pub mod Boot
pub mod Frame
pub mod User
pub mod Mapping
pub mod Mapper
pub mod UserCopy
