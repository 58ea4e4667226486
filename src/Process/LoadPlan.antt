-- ===== src/Process/LoadPlan.antt =====
-- The load plan of an image, kernel/src/process/load_plan.rs. The array of eight optional mappings
-- with its count is the list of the mappings; an image has at most eight segments.
pub mod Laws
use x.Base.{
  ℕ, zero, suc, ◌+◌, ◌-◌, ◌%◌, Bool, true, false, ◌&&◌, ◌||◌, Option, none, some, List, [], ◌∷◌,
  ◌++◌, ltb, leb, length, get_elem?, if◌then◌else◌, checked_add, Result, ok, err, ok_or, map_err,
  refuse_if, ◌>>=◌, not,
}
use x.Memory.Ranges.{VirtRange, virt_range, virt_contains}
use x.Memory.Page.{page_base}
use x.Process.AddressSpace.{
  AddressSpaceSpec, AddressSpaceError, invalid_user_range, validate_image_range,
}
use x.Process.Elf.{LoadSegment, ElfImage, executable, writable, segment_count}

pub data LoadPlanError : Type 0 where
  address_space_error : AddressSpaceError → LoadPlanError
  segment_overlap writable_executable_segment invalid_entry too_many_segments : LoadPlanError

pub record SegmentMapping : Type 0 where
  pub virtual_range : VirtRange
  pub flags : ℕ

pub record LoadPlan : Type 0 where
  pub entry : ℕ
  pub segments : List SegmentMapping

-- The whole pages that a segment touches.
unfoldable pub map_span : LoadSegment → Result LoadPlanError VirtRange
unfolding virt_range
map_span s = do
  end ← ok_or (checked_add s.virtual_range.end (4096 - 1)) (address_space_error invalid_user_range)
  ok_or (virt_range (page_base s.virtual_range.start) (page_base end))
      (address_space_error invalid_user_range)

unfoldable pub ranges_overlap : VirtRange → VirtRange → Bool
ranges_overlap left right = ltb left.start right.end && ltb right.start left.end

unfoldable pub any_overlap : VirtRange → List SegmentMapping → Bool
unfolding ranges_overlap
any_overlap r [] = false
any_overlap r (m ∷ ms) = ranges_overlap r m.virtual_range || any_overlap r ms

abbrev pub mapping : VirtRange → LoadSegment → SegmentMapping
mapping r s = record { virtual_range = r; flags = s.flags }

-- The checks of one round of the loop; the result is the span of the segment.
unfoldable pub plan_segment :
    AddressSpaceSpec → List SegmentMapping → LoadSegment → Result LoadPlanError VirtRange
unfolding map_span validate_image_range writable executable any_overlap
plan_segment space prior s = do
  mapped ← map_span s
  _ ← map_err address_space_error (validate_image_range space mapped)
  _ ← refuse_if (writable s && executable s) writable_executable_segment
  _ ← refuse_if (any_overlap mapped prior) segment_overlap
  ok mapped

unfoldable pub plan_segments :
    AddressSpaceSpec
    → ℕ
    → List LoadSegment
    → List SegmentMapping
    → Bool
    → Result LoadPlanError (List SegmentMapping × Bool)
unfolding plan_segment executable virt_contains
plan_segments space entry [] prior entry_executable = ok (prior, entry_executable)
plan_segments space entry (s ∷ ss) prior entry_executable = elim (plan_segment space prior s) [
  | err e ↦ err e
  | ok mapped ↦
      plan_segments space entry ss (prior ++ mapping mapped s ∷ [])
        (entry_executable || (executable s && virt_contains mapped entry))
]

unfoldable pub build : AddressSpaceSpec → ElfImage → Result LoadPlanError LoadPlan
unfolding plan_segments segment_count
build space image = do
  _ ← refuse_if (ltb 8 (segment_count image)) too_many_segments
  (segments, entry_executable) ← plan_segments space image.entry image.segments [] false
  _ ← refuse_if (not entry_executable) invalid_entry
  ok (record { entry = image.entry; segments = segments })

unfoldable pub count : LoadPlan → ℕ
count p = length p.segments

unfoldable pub segment : LoadPlan → ℕ → Option SegmentMapping
segment p index = if leb (count p) index then none else get_elem? p.segments index
