-- ===== src/Memory/Canonical.antt =====
-- Where the user stack lies, against what an x86_64 processor can address.
use x.Base.{ℕ, ◌≤◌, ◌≡◌, Bool, true, false, some, arith, leb, ltb, ◌||◌}
use x.Memory.Ranges.{VirtRange, virt_contains}
use x.Memory.Layout.{default, user_stack_range}

-- With four levels of page tables, bits 48 to 63 of a virtual address repeat bit 47.
abbrev pub canonical : ℕ → Bool
canonical a = ltb a 0x800000000000 || leb 0xffff800000000000 a

-- Every address of the stack range that process construction uses is outside what an x86_64
-- processor can address, and outside the stack range of the address-space layout.
pub user_stack_unreachable :
    (r : VirtRange) (a : ℕ)
    → user_stack_range ≡ some r
    → virt_contains r a ≡ true
    → (canonical a ≡ false) × (virt_contains default.stack a ≡ false)
unfolding user_stack_range virt_contains default
user_stack_unreachable r a e h = ground arith

-- The three parts of the default layout are inside the user range, the guard ends where the stack
-- starts, and no address is in both.
pub default_disjoint :
    (a : ℕ)
    → virt_contains default.stack a ≡ true
    → (virt_contains default.guard a ≡ false)
      × (virt_contains default.user a ≡ true)
      × (default.guard.end ≡ default.stack.start)
      × (default.image_base ≤ default.guard.start)
unfolding default virt_contains
default_disjoint a h = ground arith
