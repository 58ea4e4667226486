-- ===== src/Memory/Frame/Upcoming.antt =====
-- Frame allocation refines a list: the frames that the memory map still offers, in order.
use x.Base.{
  ℕ, zero, suc, ◌+◌, ◌-◌, ◌/◌, ◌%◌, ◌≤◌, ◌<◌, ◌≡◌, refl, ap, Option, none, some, List, [], ◌∷◌,
  ◌++◌, length, arith, Option-cases, inl, inr, u64_max,
}
use x.Memory.Ranges.{PhysRange}
use x.Memory.Boot.{MemoryRegion}
use x.Memory.Frame.{
  Frame, EarlyFrameAllocator, usable_span, select, frame_loop, allocate_frame, frame_size, new,
}

-- `n` frames in a row.
unfoldable pub frames : ℕ → ℕ → List ℕ
frames address zero = []
frames address (suc n) = address ∷ frames (address + frame_size) n

-- How many frames start in a span.
abbrev pub room : ℕ → ℕ → ℕ
room address end = (end + 4095 - address) / 4096

abbrev pub span_frames : Option PhysRange → List ℕ
span_frames none = []
span_frames (some s) = frames s.start (room s.start s.end)

unfoldable pub map_frames : List MemoryRegion → List ℕ
map_frames [] = []
map_frames (r ∷ rs) = span_frames (usable_span r) ++ map_frames rs

-- The frames to come: those of the current span, then those of the regions left.
abbrev pub upcoming : EarlyFrameAllocator → List ℕ
upcoming a = frames a.next_address (room a.next_address a.current_end) ++ map_frames a.regions

-- Physical addresses stay one frame below the end of the 64-bit range.
abbrev pub AllBelow : List MemoryRegion → Type 0
AllBelow [] = Unit {0}
AllBelow (r ∷ rs) = (r.end ≤ u64_max - 4095) × AllBelow rs

pub record IsValid (a : EarlyFrameAllocator) : Type 0 where
  pub aligned : a.next_address % frame_size ≡ 0
  pub below : a.current_end ≤ u64_max - 4095
  pub regions_below : AllBelow a.regions

-- A new allocator offers the frames of its memory map, in order.
pub new-IsValid :
    (rs : List MemoryRegion) → AllBelow rs → IsValid (new rs) × (upcoming (new rs) ≡ map_frames rs)
unfolding new frames
new-IsValid rs h = (record { aligned = refl; below = omega arith; regions_below = h }, refl)

-- A span that is offered is not empty, starts on a frame and ends where its region does.
usable_span_lem :
    (r : MemoryRegion) (s : PhysRange)
    → usable_span r ≡ some s
    → (s.start < s.end) × (s.start % frame_size ≡ 0) × (s.end ≡ r.end) × (r.start ≤ s.start)
unfolding usable_span
usable_span_lem r s h = ground arith

-- The search takes the regions that offer nothing, and the first that offers frames.
abbrev pub Selected : List MemoryRegion → List MemoryRegion × Option PhysRange → Type 0
Selected rs (rest, none) = (map_frames rs ≡ []) × (map_frames rest ≡ []) × AllBelow rest
Selected rs (rest, some s) =
    (map_frames rs ≡ frames s.start (room s.start s.end) ++ map_frames rest)
    × (s.start < s.end)
    × (s.start % frame_size ≡ 0)
    × (s.end ≤ u64_max - 4095)
    × AllBelow rest
    × (length rest < length rs)

Selected-skip :
    (r : MemoryRegion) (rs : List MemoryRegion) (found : List MemoryRegion × Option PhysRange)
    → usable_span r ≡ none
    → Selected rs found
    → Selected (r ∷ rs) found
unfolding map_frames
Selected-skip r rs (rest, none) e h = rw e h
Selected-skip r rs (rest, some s) e (a, b, c, d, l, n) = (rw e a, b, c, d, l, omega arith)

pub select-skip :
    (r : MemoryRegion) (rs : List MemoryRegion) → usable_span r ≡ none → select (r ∷ rs) ≡ select rs
unfolding select
select-skip r rs e = ground arith

pub select-take :
    (r : MemoryRegion) (rs : List MemoryRegion) (s : PhysRange)
    → usable_span r ≡ some s
    → select (r ∷ rs) ≡ (rs, some s)
unfolding select
select-take r rs s e = ground arith

pub select-Selected : (rs : List MemoryRegion) → AllBelow rs → Selected rs (select rs)
unfolding map_frames
select-Selected [] h = unfold select in (refl, refl, tt)
select-Selected (r ∷ rs) h = elim (Option-cases (usable_span r)) [
  | inl e ↦ rw (select-skip r rs e) (Selected-skip r rs (select rs) e (select-Selected rs h.1))
  | inr (s, e) ↦
      let (a, b, c, d) = usable_span_lem r s e in
      rw (select-take r rs s e) (rw e, a, b, omega arith, h.1, omega arith)
]

-- One allocation takes the head of the list, and fails only when the list is empty.
abbrev pub Takes : List ℕ → EarlyFrameAllocator × Option Frame → Type 0
Takes [] (a', frame) = (frame ≡ none) × (upcoming a' ≡ []) × IsValid a'
Takes (f ∷ rest) (a', frame) =
    (frame ≡ some (record { start_address = f })) × (upcoming a' ≡ rest) × IsValid a'

frame_loop-now :
    (n : ℕ) (a : EarlyFrameAllocator)
    → IsValid a
    → a.next_address < a.current_end
    → frame_loop (suc n) a ≡ (
      record a { next_address = a.next_address + frame_size },
      some (record { start_address = a.next_address }),
    )
unfolding frame_loop
frame_loop-now n a v h = ground arith

abbrev moved_to : EarlyFrameAllocator → List MemoryRegion → PhysRange → EarlyFrameAllocator
moved_to a rest s = record { regions = rest; current_end = s.end; next_address = s.start }

-- The last frame of a span whose end is not aligned is handed out, though it reaches past the end.
pub allocate_frame_overrun :
    (a : EarlyFrameAllocator)
    → IsValid a
    → a.next_address < a.current_end
    → a.current_end < a.next_address + frame_size
    → (f : Frame) × ((allocate_frame a).1 ≡ some f) × (a.current_end < f.start_address + frame_size)
unfolding allocate_frame
allocate_frame_overrun a v h k = (
  record { start_address = a.next_address },
  ap (λ (r : EarlyFrameAllocator × Option Frame). r.1)
      (frame_loop-now (suc (length a.regions)) a v h),
  k,
)
