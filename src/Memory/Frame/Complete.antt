-- ===== src/Memory/Frame/Complete.antt =====
-- A contiguous allocation fails only when no region has room.
use x.Base.{
  ℕ, suc, ◌+◌, ◌*◌, ◌≤◌, ◌<◌, ◌≡◌, true, false, Option, none, some, List, [], ◌∷◌, length, ltb, leb,
  u64_max, ◌&&◌,
}
use x.Memory.Ranges.{PhysRange}
use x.Memory.Boot.{MemoryRegion}
use x.Memory.Frame.{EarlyFrameAllocator, usable_span, select, contiguous_loop, frame_size}
use x.Memory.Frame.Upcoming.{IsValid, Selected}
use x.Memory.Frame.Contiguous.{unfit}

-- No region left has a span of so many bytes.
abbrev pub AllUnfit : ℕ → List MemoryRegion → Type 0
AllUnfit bytes [] = Unit {0}
AllUnfit bytes (r ∷ rs) =
    ((s : PhysRange) → usable_span r ≡ some s → s.end < s.start + bytes) × AllUnfit bytes rs

-- The ends of the regions are so low that adding the size of the request does not overflow.
abbrev pub AllSmall : ℕ → List MemoryRegion → Type 0
AllSmall bytes [] = Unit {0}
AllSmall bytes (r ∷ rs) =
    ((s : PhysRange) → usable_span r ≡ some s → s.start + bytes ≤ u64_max) × AllSmall bytes rs

abbrev Passed : ℕ → List MemoryRegion → List MemoryRegion × Option PhysRange → Type 0
Passed bytes rs (rest, none) = AllUnfit bytes rs
Passed bytes rs (rest, some s) =
    (AllSmall bytes rs → (s.start + bytes ≤ u64_max) × AllSmall bytes rest)
    × (s.end < s.start + bytes → AllUnfit bytes rest → AllUnfit bytes rs)

-- The current span has no room either.
abbrev pub NoRoom : ℕ → EarlyFrameAllocator → Type 0
NoRoom bytes a =
    ((ltb a.next_address a.current_end && leb (a.next_address + bytes) a.current_end) ≡ false)
    × AllUnfit bytes a.regions

abbrev NextFound :
    (n f : ℕ) (a : EarlyFrameAllocator) → List MemoryRegion × Option PhysRange → Type 0
NextFound n f a found =
    IsValid a
    → unfit (n * frame_size) a ≡ true
    → select a.regions ≡ found
    → Selected a.regions found
    → Passed (n * frame_size) a.regions found
    → length a.regions < suc f
    → AllSmall (n * frame_size) a.regions
    → ((b : EarlyFrameAllocator)
        → IsValid b
        → length b.regions < f
        → b.next_address + n * frame_size ≤ u64_max
        → AllSmall (n * frame_size) b.regions
        → (contiguous_loop f n (n * frame_size) b).1 ≡ none
        → NoRoom (n * frame_size) b)
    → (contiguous_loop (suc f) n (n * frame_size) a).1 ≡ none
    → NoRoom (n * frame_size) a
