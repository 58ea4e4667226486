-- ===== src/Memory/Physical.antt =====
-- The physical-to-virtual mapping, kernel/src/memory/physical.rs.
use x.Base.{
  ℕ, ◌+◌, ◌≤◌, ◌≡◌, refl, Option, none, some, nat_eq, checked_add, arith, if◌then◌else◌, Result, ok,
  err, u64_max,
}
use x.Memory.Ranges.{
  PhysRange, VirtRange, virt_range, phys_contains, virt_contains, phys_len, virt_len,
}

pub record PhysicalMemoryMapping : Type 0 where
  pub offset : ℕ

-- `GLOBAL_MAPPING`, a cell that is written once, and `install_global`.
unfoldable pub install_global :
    Option PhysicalMemoryMapping
    → PhysicalMemoryMapping
    → Option PhysicalMemoryMapping × Result PhysicalMemoryMapping (Unit {0})
install_global none m = (some m, ok tt)
install_global (some old) m = (some old, if nat_eq old.offset m.offset then ok tt else err old)

unfoldable pub translate : PhysicalMemoryMapping → ℕ → Option ℕ
translate m physical_address = checked_add m.offset physical_address

unfoldable pub translate_range : PhysicalMemoryMapping → PhysRange → Option VirtRange
unfolding translate virt_range
translate_range m r = elim (translate m r.start) [
  | none ↦ none
  | some start ↦ elim (translate m r.end) [ none ↦ none | some end ↦ virt_range start end ]
]

-- A range that is translated does not overflow, keeps its length, and holds an address exactly when
-- its image holds the translation of that address.
pub translate_range_lem :
    (m : PhysicalMemoryMapping) (r : PhysRange) (v : VirtRange) (a : ℕ)
    → r.start ≤ r.end
    → translate_range m r ≡ some v
    → (virt_len v ≡ phys_len r)
      × (virt_contains v (m.offset + a) ≡ phys_contains r a)
      × (m.offset + r.end ≤ u64_max)
unfolding translate_range virt_len phys_len virt_contains phys_contains
translate_range_lem m r v a h e = ground arith

-- The first installation wins: the cell holds the same mapping after any later call, which succeeds
-- exactly if it brings that mapping.
pub install_global_once :
    (old : Option PhysicalMemoryMapping) (m n : PhysicalMemoryMapping)
    → let first = install_global old m in
      ((install_global first.0 n).0 ≡ first.0)
      × ((install_global none m).0 ≡ some m)
      × ((install_global (some m) n).1 ≡ (if nat_eq m.offset n.offset then ok tt else err m))
unfolding install_global
install_global_once none m n = (refl, refl, refl)
install_global_once (some o) m n = (refl, refl, refl)
