-- ===== src/Examples/MemoryRuns.antt =====
-- A memory map of two usable regions, one of them with an end that is not aligned; a user slice of
-- two pages; and the ranges of the layout.
use x.Base.{
  ◌%◌, ◌-◌, ℕ, ◌+◌, ◌-◌, ◌≤◌, ◌<◌, ◌≡◌, ◌↔◌, ◌⊎◌, refl, true, false, none, some, [], ◌∷◌, leb,
  arith, ok, u64_max,
}
use x.Abi.{
  yield, write_failed, number, from_number, return_value, from_return_value, UserSlice,
  abi_round_trip,
}
use x.Memory.Ranges.{VirtRange, virt_contains, user_space_start, kernel_space_start}
use x.Memory.Layout.{user_stack_range, default}
use x.Memory.Page.{page_base}
use x.Memory.Mapping.{PageAccess}
use x.Memory.User.{validate_slice, validate_slice_iff}
use x.Memory.UserCopy.{validate_readable_range}
use x.Memory.UserCopy.Laws.{
  check_pages, pages_from, page_count, validate_readable_range_iff,
  validate_readable_range-check_pages,
}
use x.Memory.Frame.{EarlyFrameAllocator, Frame, frame_size, allocate_frame}
use x.Memory.Frame.Upcoming.{IsValid, allocate_frame_overrun}
use x.Memory.Canonical.{canonical, user_stack_unreachable}

abi_round_trip_example :
    (from_number (number yield) ≡ some yield)
    × ((from_number 2 ≡ some yield) ↔ (2 ≡ number yield))
    × (from_return_value (return_value write_failed) ≡ some write_failed)
    × (u64_max - 16 < return_value write_failed)
    × ((from_return_value 2 ≡ some write_failed) ↔ (2 ≡ return_value write_failed))
    × ((u64_max - 16 < 2) ⊎ (from_return_value 2 ≡ none))
abi_round_trip_example = abi_round_trip yield write_failed 2 (omega arith)

-- The second region is not a whole number of frames.
abbrev allocator : EarlyFrameAllocator
allocator = record {
  regions = record { start = 0x100010; end = 0x104000; usable = true } ∷ [];
  current_end = 0x9800;
  next_address = 0x9000;
}

allocator-IsValid : IsValid allocator
allocator-IsValid = record {
  aligned = refl;
  below = omega arith;
  regions_below = (omega arith, tt);
}

allocate_frame_overrun_example :
    (f : Frame) × ((allocate_frame allocator).1 ≡ some f)
    × (allocator.current_end < f.start_address + frame_size)
allocate_frame_overrun_example =
    allocate_frame_overrun allocator allocator-IsValid (omega arith) (omega arith)

abbrev slice : UserSlice
slice = record { ptr = 0x20ff0; len = 32 }

abbrev slice_range : VirtRange
slice_range = record { start = 0x20ff0; end = 0x21010 }

validate_slice_iff_example : (validate_slice slice ≡ ok slice_range) ↔ (
    (slice_range.start ≡ slice.ptr)
    × (slice_range.end ≡ slice.ptr + slice.len)
    × (((slice.len ≡ 0) → ⊥)
        → (user_space_start ≤ slice.ptr) × (slice.ptr + slice.len ≤ kernel_space_start)))
validate_slice_iff_example = validate_slice_iff slice slice_range

-- Pages below 0x30000 are mapped for the user to read.
abbrev access : ℕ → PageAccess
access page = record {
  mapped = leb page 0x2f000;
  user = true;
  readable = true;
  writable = false;
  executable = false;
}

validate_readable_range_iff_example : (validate_readable_range access slice ≡ ok tt) ↔ (
    (user_space_start ≤ slice.ptr)
    × (slice.ptr + slice.len ≤ kernel_space_start)
    × ((a : ℕ)
        → slice.ptr ≤ a
        → a < slice.ptr + slice.len
        → let page = access (a - a % 4096) in
          (page.mapped ≡ true) × (page.user ≡ true) × (page.readable ≡ true)))
validate_readable_range_iff_example = validate_readable_range_iff access slice (λ e. omega arith)

slice_valid : validate_slice slice ≡ ok slice_range
slice_valid = (validate_slice_iff slice slice_range).1 (refl, refl, λ n. (omega arith, omega arith))

validate_readable_range-check_pages_example :
    validate_readable_range access slice
    ≡ check_pages access (
        pages_from (page_base slice.ptr) (page_count (page_base slice.ptr) (slice.ptr + slice.len)))
validate_readable_range-check_pages_example =
    validate_readable_range-check_pages access slice slice_range (λ e. omega arith) slice_valid

user_stack_unreachable_example :
    (canonical 0xffff7fffffff0000 ≡ false)
    × (virt_contains default.stack 0xffff7fffffff0000 ≡ false)
user_stack_unreachable_example =
    user_stack_unreachable (record { start = 0xffff7ffffffef000; end = 0xffff7ffffffff000 })
      0xffff7fffffff0000 (unfold user_stack_range in refl) (unfold virt_contains in refl)
