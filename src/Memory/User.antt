-- ===== src/Memory/User.antt =====
-- Validation of user ranges, kernel/src/memory/user.rs.
use x.Base.{
  ◌+◌, ◌≤◌, ◌≡◌, ◌↔◌, ◌||◌, nat_eq, ltb, if◌then◌else◌, checked_add, Result, ok, err, ok_or, ◌>>=◌,
  arith,
}
use x.Abi.{UserSlice}
use x.Memory.Ranges.{VirtRange, virt_range, user_space_start, kernel_space_start}

pub data UserRangeError : Type 0 where
  null_pointer address_overflow outside_user_space : UserRangeError

abbrev checked_range : VirtRange → Result UserRangeError VirtRange
checked_range r =
    if ltb r.start user_space_start || ltb kernel_space_start r.end
    then err outside_user_space
    else ok r

-- `expect` cannot fail: the empty range is ordered.
unfoldable pub validate_slice : UserSlice → Result UserRangeError VirtRange
unfolding virt_range
validate_slice slice =
    if nat_eq slice.len 0
    then ok (record { start = slice.ptr; end = slice.ptr })
    else if nat_eq slice.ptr 0
    then err null_pointer
    else do
      end ← ok_or (checked_add slice.ptr slice.len) address_overflow
      range ← ok_or (virt_range slice.ptr end) address_overflow
      checked_range range

-- A slice of at least one byte is accepted exactly if it lies between the start of user space and
-- the start of kernel space; then the range is the slice's own, and it does not wrap. An empty slice
-- is always accepted, as an empty range at its pointer.
pub validate_slice_iff :
    (slice : UserSlice) (r : VirtRange)
    → (validate_slice slice ≡ ok r) ↔ (
        (r.start ≡ slice.ptr)
        × (r.end ≡ slice.ptr + slice.len)
        × (((slice.len ≡ 0) → ⊥)
            → (user_space_start ≤ slice.ptr) × (slice.ptr + slice.len ≤ kernel_space_start)))
unfolding validate_slice
validate_slice_iff slice r = (λ h. ground arith, λ h. ground arith)
