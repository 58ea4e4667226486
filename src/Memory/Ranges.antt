-- ===== src/Memory/Ranges.antt =====
-- Half-open address ranges: kernel/src/memory/region.rs and the `VirtRange` of
-- kernel/src/memory/address_space.rs. The fields are private in the source, so every range comes
-- from `new` or from a literal with `start <= end`, and `len` does not wrap.
use x.Base.{
  ℕ, ◌-◌, ◌/◌, ◌%◌, Bool, not, ◌&&◌, ◌||◌, Option, none, some, ltb, leb, nat_eq, if◌then◌else◌,
}

pub record PhysRange : Type 0 where
  pub start : ℕ
  pub end : ℕ

unfoldable pub phys_range : ℕ → ℕ → Option PhysRange
phys_range start end = if leb start end then some (record { start = start; end = end }) else none

unfoldable pub phys_len : PhysRange → ℕ
phys_len r = r.end - r.start

unfoldable pub phys_contains : PhysRange → ℕ → Bool
phys_contains r address = leb r.start address && ltb address r.end

unfoldable pub page_count_4k : PhysRange → Option ℕ
unfolding phys_len
page_count_4k r =
    if not (nat_eq (r.start % 4096) 0) || not (nat_eq (r.end % 4096) 0)
    then none
    else some (phys_len r / 4096)

-- `USER_SPACE_START`, `KERNEL_SPACE_START` and the sizes of kernel/src/memory/address_space.rs
abbrev pub user_space_start : ℕ
user_space_start = 0x10000

abbrev pub kernel_space_start : ℕ
kernel_space_start = 0xffff800000000000

pub record VirtRange : Type 0 where
  pub start : ℕ
  pub end : ℕ

unfoldable pub virt_range : ℕ → ℕ → Option VirtRange
virt_range start end = if leb start end then some (record { start = start; end = end }) else none

unfoldable pub virt_len : VirtRange → ℕ
virt_len r = r.end - r.start

unfoldable pub is_empty : VirtRange → Bool
is_empty r = nat_eq r.start r.end

unfoldable pub virt_contains : VirtRange → ℕ → Bool
virt_contains r address = leb r.start address && ltb address r.end

unfoldable pub is_user : VirtRange → Bool
is_user r = leb user_space_start r.start && leb r.end kernel_space_start

unfoldable pub is_kernel : VirtRange → Bool
is_kernel r = leb kernel_space_start r.start
