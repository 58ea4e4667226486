-- ===== src/Memory/Layout.antt =====
-- The layout of a user address space: `UserAddressSpaceLayout` of
-- kernel/src/memory/address_space.rs, and the stack policy of kernel/src/memory/user_stack.rs, which
-- declares constants of its own.
use x.Base.{ℕ, ◌+◌, ◌-◌, ◌*◌, ◌%◌, Bool, false, ◌&&◌, Option, none, some, nat_eq, leb, checked_sub}
use x.Memory.Ranges.{VirtRange, virt_range, virt_contains, user_space_start, kernel_space_start}

-- The constants of address_space.rs.
abbrev pub user_stack_size : ℕ
user_stack_size = 16 * 4096

abbrev pub user_stack_guard_size : ℕ
user_stack_guard_size = 4096

abbrev pub user_stack_top : ℕ
user_stack_top = kernel_space_start - 0x100000

abbrev pub user_image_base : ℕ
user_image_base = user_space_start + 0x100000

pub record UserAddressSpaceLayout : Type 0 where
  pub user : VirtRange
  pub stack : VirtRange
  pub guard : VirtRange
  pub image_base : ℕ

unfoldable pub default : UserAddressSpaceLayout
default =
    let stack_start = user_stack_top - user_stack_size in
    let guard_start = stack_start - user_stack_guard_size in
    record {
      user = record { start = user_space_start; end = kernel_space_start };
      stack = record { start = stack_start; end = user_stack_top };
      guard = record { start = guard_start; end = stack_start };
      image_base = user_image_base;
    }

unfoldable pub is_stack_address : UserAddressSpaceLayout → ℕ → Bool
is_stack_address l address = virt_contains l.stack address

unfoldable pub is_guard_address : UserAddressSpaceLayout → ℕ → Bool
is_guard_address l address = virt_contains l.guard address

-- The constants of user_stack.rs.
abbrev pub stack_pages : ℕ
stack_pages = 16

abbrev pub stack_size : ℕ
stack_size = stack_pages * 4096

abbrev pub stack_top : ℕ
stack_top = kernel_space_start - 0x1000

abbrev pub stack_guard_size : ℕ
stack_guard_size = 4096

unfoldable pub user_stack_range : Option VirtRange
unfolding virt_range
user_stack_range = elim (checked_sub stack_top stack_size) [
  | none ↦ none
  | some data_start ↦ virt_range data_start stack_top
]

abbrev guard_below : Option VirtRange → Option VirtRange
guard_below none = none
guard_below (some r) = elim (checked_sub r.start stack_guard_size) [
  | none ↦ none
  | some guard_start ↦ virt_range guard_start r.start
]

unfoldable pub user_stack_guard_range : Option VirtRange
unfolding user_stack_range virt_range
user_stack_guard_range = guard_below user_stack_range

abbrev pointer_in : ℕ → Option VirtRange → Bool
pointer_in rsp none = false
pointer_in rsp (some r) = leb r.start rsp && leb rsp r.end && nat_eq (rsp % 16) 0

unfoldable pub is_valid_user_stack_pointer : ℕ → Bool
unfolding user_stack_range
is_valid_user_stack_pointer rsp = pointer_in rsp user_stack_range
