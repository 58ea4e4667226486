-- ===== src/Memory/Frame/Contiguous.antt =====
-- A contiguous allocation takes frames that follow one another in a single region.
use x.Base.{
  ℕ, suc, ◌+◌, ◌*◌, ◌%◌, ◌≤◌, ◌<◌, ◌≡◌, Bool, true, Option, none, some, List, ◌++◌, arith, ltb, leb,
  u64_max, ◌||◌, ◌&&◌,
}
use x.Memory.Ranges.{PhysRange}
use x.Memory.Boot.{MemoryRegion}
use x.Memory.Frame.{EarlyFrameAllocator, ContiguousFrames, select, contiguous_loop, frame_size}
use x.Memory.Frame.Upcoming.{frames, upcoming, IsValid}

-- What a contiguous allocation does to the frames to come: some are skipped; then, on success, come
-- those allocated, in a row; the others are still to come.
abbrev pub Runs : ℕ → List ℕ → EarlyFrameAllocator × Option ContiguousFrames → Type 0
Runs n before (a', none) = IsValid a' × ((skipped : List ℕ) × (before ≡ skipped ++ upcoming a'))
Runs n before (a', some c) =
    IsValid a'
    × (c.frame_count ≡ n)
    × (c.start % frame_size ≡ 0)
    × (c.start + n * frame_size ≤ a'.current_end)
    × ((skipped : List ℕ) × (before ≡ skipped ++ (frames c.start n ++ upcoming a')))

-- The current span has room.
pub fits :
    (n f : ℕ) (a : EarlyFrameAllocator)
    → IsValid a
    → a.next_address < a.current_end
    → a.next_address + n * frame_size ≤ a.current_end
    → contiguous_loop (suc f) n (n * frame_size) a ≡ (
      record a { next_address = a.next_address + n * frame_size },
      some (record { start = a.next_address; frame_count = n }),
    )
unfolding contiguous_loop
fits n f a v h k = ground (arith, v.below)

-- The current span does not serve, and the next one is tried.
abbrev pub unfit : ℕ → EarlyFrameAllocator → Bool
unfit bytes a =
    leb a.current_end a.next_address
    || (leb (a.next_address + bytes) u64_max && ltb a.current_end (a.next_address + bytes))

abbrev pub moved_to : EarlyFrameAllocator → List MemoryRegion → PhysRange → EarlyFrameAllocator
moved_to a rest s = record { regions = rest; current_end = s.end; next_address = s.start }

pub loop-dry :
    (n f bytes : ℕ) (a : EarlyFrameAllocator) (rest : List MemoryRegion)
    → unfit bytes a ≡ true
    → select a.regions ≡ (rest, none)
    → contiguous_loop (suc f) n bytes a
      ≡ (record { regions = rest; current_end = 0; next_address = 0 }, none)
unfolding contiguous_loop
loop-dry n f bytes a rest h e = ground arith

pub loop-more :
    (n f bytes : ℕ) (a : EarlyFrameAllocator) (rest : List MemoryRegion) (s : PhysRange)
    → unfit bytes a ≡ true
    → select a.regions ≡ (rest, some s)
    → contiguous_loop (suc f) n bytes a ≡ contiguous_loop f n bytes (moved_to a rest s)
unfolding contiguous_loop
loop-more n f bytes a rest s h e = ground arith
