-- ===== src/Memory/Frame.antt =====
-- Physical frame allocation, kernel/src/memory/frame.rs. The slice iterator over the memory map is
-- the list of the regions that are left.
pub mod Upcoming
pub mod Contiguous
pub mod Complete
use x.Base.{
  ℕ, zero, suc, ◌+◌, ◌-◌, ◌*◌, ◌%◌, Bool, true, false, not, Option, none, some, List, [], ◌∷◌,
  length, ltb, leb, nat_eq, if◌then◌else◌, checked_add, checked_mul,
}
use x.Memory.Ranges.{PhysRange, phys_range}
use x.Memory.Boot.{MemoryRegion}

abbrev pub frame_size : ℕ
frame_size = 4096

-- `Frame(u64)`
pub record Frame : Type 0 where
  pub start_address : ℕ

unfoldable pub from_start_address : ℕ → Option Frame
from_start_address address =
    if nat_eq (address % frame_size) 0 then some (record { start_address = address }) else none

pub record ContiguousFrames : Type 0 where
  pub start : ℕ
  pub frame_count : ℕ

unfoldable pub byte_len : ContiguousFrames → Option ℕ
byte_len c = checked_mul c.frame_count frame_size

unfoldable pub byte_end : ContiguousFrames → Option ℕ
byte_end c = elim (checked_mul c.frame_count frame_size) [
  | none ↦ none
  | some bytes ↦ checked_add c.start bytes
]

unfoldable pub physical_range : ContiguousFrames → Option PhysRange
unfolding byte_end phys_range
physical_range c = elim (byte_end c) [ none ↦ none | some end ↦ phys_range c.start end ]

pub record EarlyFrameAllocator : Type 0 where
  pub regions : List MemoryRegion
  pub current_end : ℕ
  pub next_address : ℕ

unfoldable pub new : List MemoryRegion → EarlyFrameAllocator
new regions = record { regions = regions; current_end = 0; next_address = 0 }

unfoldable pub checkpoint : EarlyFrameAllocator → EarlyFrameAllocator
checkpoint a = a

unfoldable pub rollback : EarlyFrameAllocator → EarlyFrameAllocator → EarlyFrameAllocator
rollback a saved = saved

-- `value & !mask`, for a mask of twelve ones, clears the low twelve bits.
unfoldable pub align_up : ℕ → Option ℕ
align_up address = elim (checked_add address (frame_size - 1)) [
  | none ↦ none
  | some value ↦ some (value - value % frame_size)
]

-- Where a region offers frames: the aligned start and the end.
unfoldable pub usable_span : MemoryRegion → Option PhysRange
unfolding phys_range align_up
usable_span region = if not region.usable then none else elim (phys_range region.start region.end) [
  | none ↦ none
  | some r ↦ elim (align_up r.start) [
    | none ↦ none
    | some start ↦ if leb r.end start then none else some (record { start = start; end = r.end })
  ]
]

-- The loop of `select_next_usable_region`: the regions left, and the span found.
unfoldable pub select : List MemoryRegion → List MemoryRegion × Option PhysRange
unfolding usable_span
select [] = ([], none)
select (r ∷ rs) =
    let later = select rs in elim (usable_span r) [ none ↦ later | some s ↦ (rs, some s) ]

unfoldable pub select_next_usable_region : EarlyFrameAllocator → EarlyFrameAllocator × Bool
unfolding select
select_next_usable_region a =
    let (rest, span) = select a.regions in
    elim span [
      | none ↦ (record a { regions = rest }, false)
      | some s ↦ (record { regions = rest; current_end = s.end; next_address = s.start }, true)
    ]

-- `self.next_address = 0; self.current_end = 0;`
abbrev pub reset : EarlyFrameAllocator → EarlyFrameAllocator
reset a = record a { next_address = 0; current_end = 0 }

-- The loops of the two allocation methods, on fuel. Each round but the last takes a region.
unfoldable pub frame_loop : ℕ → EarlyFrameAllocator → EarlyFrameAllocator × Option Frame
unfolding select_next_usable_region from_start_address
frame_loop zero a = (a, none)
frame_loop (suc fuel) a = elim (ltb a.next_address a.current_end) [
  | true ↦ elim (from_start_address a.next_address) [
    | none ↦ (a, none)
    | some frame ↦ elim (checked_add a.next_address frame_size) [
      | none ↦ (a, none)
      | some next ↦ (record a { next_address = next }, some frame)
    ]
  ]
  | false ↦
      let (a', selected) = select_next_usable_region (reset a) in
      elim selected [ true ↦ frame_loop fuel a' | false ↦ (a', none) ]
]

unfoldable pub allocate_frame : EarlyFrameAllocator → EarlyFrameAllocator × Option Frame
unfolding frame_loop
allocate_frame a = frame_loop (suc (suc (length a.regions))) a

unfoldable pub contiguous_loop :
    ℕ → ℕ → ℕ → EarlyFrameAllocator → EarlyFrameAllocator × Option ContiguousFrames
unfolding select_next_usable_region
contiguous_loop zero count bytes a = (a, none)
contiguous_loop (suc fuel) count bytes a =
    let (a', selected) = select_next_usable_region (reset a) in
    let again : EarlyFrameAllocator × Option ContiguousFrames = elim selected [
      | true ↦ contiguous_loop fuel count bytes a'
      | false ↦ (a', none)
    ] in
    elim (ltb a.next_address a.current_end) [
      | false ↦ again
      | true ↦ elim (checked_add a.next_address bytes) [
        | none ↦ (a, none)
        | some end ↦ elim (leb end a.current_end) [
          | true ↦ (
            record a { next_address = end },
            some (record { start = a.next_address; frame_count = count }),
          )
          | false ↦ again
        ]
      ]
    ]

unfoldable pub allocate_contiguous :
    EarlyFrameAllocator → ℕ → EarlyFrameAllocator × Option ContiguousFrames
unfolding contiguous_loop
allocate_contiguous a frame_count =
    if nat_eq frame_count 0 then (a, none) else elim (checked_mul frame_count frame_size) [
      | none ↦ (a, none)
      | some bytes ↦ contiguous_loop (suc (suc (length a.regions))) frame_count bytes a
    ]
