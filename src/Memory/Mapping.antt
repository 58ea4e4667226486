-- ===== src/Memory/Mapping.antt =====
-- The page-table contract, kernel/src/memory/page_table.rs. The traits `UserMemoryView` and
-- `PageTableMapper` are records of operations on the mapper's own state; a flush changes nothing
-- that the callers read.
use x.Base.{Bool, true, false, ◌&&◌}

pub data MappingError : Type 0 where
  invalid_virtual_address invalid_physical_address outside_address_space : MappingError
  already_mapped not_mapped parent_entry_huge_page : MappingError
  frame_allocation_failed invalid_mapped_frame backend_failure : MappingError

-- The three bits of `MappingFlags(u8)`.
pub record MappingFlags : Type 0 where
  pub readable : Bool
  pub writable : Bool
  pub executable : Bool

abbrev pub read_only : MappingFlags
read_only = record { readable = true; writable = false; executable = false }

abbrev pub read_write : MappingFlags
read_write = record { readable = true; writable = true; executable = false }

abbrev pub read_execute : MappingFlags
read_execute = record { readable = true; writable = false; executable = true }

abbrev pub read_write_execute : MappingFlags
read_write_execute = record { readable = true; writable = true; executable = true }

unfoldable pub is_writable_executable : MappingFlags → Bool
is_writable_executable f = f.writable && f.executable

pub record PageAccess : Type 0 where
  pub mapped : Bool
  pub user : Bool
  pub readable : Bool
  pub writable : Bool
  pub executable : Bool

abbrev pub unmapped : PageAccess
unmapped = record {
  mapped = false;
  user = false;
  readable = false;
  writable = false;
  executable = false;
}

abbrev pub user_read_only : PageAccess
user_read_only = record {
  mapped = true;
  user = true;
  readable = true;
  writable = false;
  executable = false;
}

abbrev pub user_read_write : PageAccess
user_read_write = record {
  mapped = true;
  user = true;
  readable = true;
  writable = true;
  executable = false;
}

abbrev pub user_read_execute : PageAccess
user_read_execute = record {
  mapped = true;
  user = true;
  readable = true;
  writable = false;
  executable = true;
}
