-- ===== src/Memory/Boot.antt =====
-- Accounting of the boot memory map, kernel/src/memory/boot.rs. `MemoryRegion` and
-- `MemoryRegionKind` are types of the bootloader's crate: of a region the source reads the bounds
-- and whether its kind is `Usable`.
use x.Base.{
  ℕ, ◌+◌, ◌-◌, ◌≡◌, Bool, none, some, List, [], ◌∷◌, leb, if◌then◌else◌, saturating_add, arith,
  u64_max,
}
use x.Memory.Ranges.{phys_range, phys_len}

pub record MemoryRegion : Type 0 where
  pub start : ℕ
  pub end : ℕ
  pub usable : Bool

pub record MemorySummary : Type 0 where
  pub usable_bytes : ℕ
  pub reserved_bytes : ℕ
  pub malformed_regions : ℕ

abbrev empty_summary : MemorySummary
empty_summary = record { usable_bytes = 0; reserved_bytes = 0; malformed_regions = 0 }

unfoldable pub account_region : MemorySummary → MemoryRegion → MemorySummary
unfolding phys_range phys_len
account_region s region = elim (phys_range region.start region.end) [
  | none ↦ record s { malformed_regions = saturating_add s.malformed_regions 1 }
  | some r ↦
      if region.usable
      then record s { usable_bytes = saturating_add s.usable_bytes (phys_len r) }
      else record s { reserved_bytes = saturating_add s.reserved_bytes (phys_len r) }
]

unfoldable pub summarize_from : MemorySummary → List MemoryRegion → MemorySummary
unfolding account_region
summarize_from s [] = s
summarize_from s (r ∷ rs) = summarize_from (account_region s r) rs

unfoldable pub summarize : List MemoryRegion → MemorySummary
unfolding summarize_from
summarize rs = summarize_from empty_summary rs

-- The exact sums, with no saturation.
unfoldable pub total_usable : List MemoryRegion → ℕ
total_usable [] = 0
total_usable (r ∷ rs) = (if r.usable then r.end - r.start else 0) + total_usable rs

unfoldable pub total_reserved : List MemoryRegion → ℕ
total_reserved [] = 0
total_reserved (r ∷ rs) = (if r.usable then 0 else r.end - r.start) + total_reserved rs

unfoldable pub count_malformed : List MemoryRegion → ℕ
count_malformed [] = 0
count_malformed (r ∷ rs) = (if leb r.start r.end then 0 else 1) + count_malformed rs

abbrev clamp : ℕ → ℕ
clamp n = if leb n u64_max then n else u64_max

abbrev clamped : ℕ → ℕ → ℕ → MemorySummary
clamped u r m = record {
  usable_bytes = clamp u;
  reserved_bytes = clamp r;
  malformed_regions = clamp m;
}

account_clamped :
    (u r m : ℕ) (region : MemoryRegion)
    → account_region (clamped u r m) region
      ≡ clamped
          (u + (if region.usable then region.end - region.start else 0))
          (r + (if region.usable then 0 else region.end - region.start))
          (m + (if leb region.start region.end then 0 else 1))
unfolding account_region
account_clamped u r m region = ground arith

summarize_clamped :
    (u r m : ℕ) (rs : List MemoryRegion)
    → summarize_from (clamped u r m) rs
      ≡ clamped (u + total_usable rs) (r + total_reserved rs) (m + count_malformed rs)
unfolding summarize_from total_usable total_reserved count_malformed
summarize_clamped u r m [] = ground arith
summarize_clamped u r m (x ∷ rs) = rw (account_clamped u r m x) (
    ground (
      arith,
      summarize_clamped (u + (if x.usable then x.end - x.start else 0))
          (r + (if x.usable then 0 else x.end - x.start)) (m + (if leb x.start x.end then 0 else 1))
          rs,
    ))

-- The summary of a map is the exact sum of the lengths of its usable regions, of its other regions,
-- and the number of inverted regions, which count no bytes; each is cut off at `u64::MAX`.
pub summarize-total :
    (rs : List MemoryRegion)
    → let s = summarize rs in
      (s.usable_bytes ≡ (if leb (total_usable rs) u64_max then total_usable rs else u64_max))
      × (s.reserved_bytes
          ≡ (if leb (total_reserved rs) u64_max then total_reserved rs else u64_max))
      × (s.malformed_regions
          ≡ (if leb (count_malformed rs) u64_max then count_malformed rs else u64_max))
unfolding summarize
summarize-total rs =
    let h : summarize_from empty_summary rs
        ≡ clamped (0 + total_usable rs) (0 + total_reserved rs) (0 + count_malformed rs) =
      summarize_clamped 0 0 0 rs in
    ground (arith, h)
