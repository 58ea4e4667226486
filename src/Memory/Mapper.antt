-- ===== src/Memory/Mapper.antt =====
-- The trait `PageTableMapper`, kernel/src/memory/page_table.rs: the operations that change an address
-- space, on the mapper's own state, and what a mapper of page tables keeps to. A flush changes
-- nothing that the callers read.
use x.Base.{
  ℕ, refl, ◌≡◌, sym, Option, none, some, nat_eq, if◌then◌else◌, Result, ok, err, arith, Bool-cases,
  inl, inr,
}
use mathlib.Core.Path.{fun_ext}
use x.Memory.Page.{Page4K}
use x.Memory.Mapping.{MappingError, MappingFlags, PageAccess}

pub record PageTableMapper (M : Type 0) : Type 0 where
  pub page_access : M → ℕ → PageAccess
  pub allocate_frame : M → M × Option ℕ
  pub map_page : M → Page4K → ℕ → MappingFlags → M × Result MappingError (Unit {0})
  pub unmap_page : M → Page4K → M × Result MappingError ℕ

-- The frame and the flags of each mapped page, by its address.
abbrev pub PageTable : Type 0
PageTable = ℕ → Option (ℕ × MappingFlags)

unfoldable pub put : PageTable → ℕ → ℕ × MappingFlags → PageTable
put t page entry a = if nat_eq a page then some entry else t a

unfoldable pub clear : PageTable → ℕ → PageTable
clear t page a = if nat_eq a page then none else t a

-- The contract of a mapper whose state holds a page table: frames are given without a change to the
-- table, a page that is mapped already is refused, a refusal changes nothing, and a mapped page can
-- be unmapped.
pub record Lawful {M : Type 0} (mapper : PageTableMapper M) (table : M → PageTable) : Type 0 where
  pub allocate_keeps : (m : M) → table (mapper.allocate_frame m).0 ≡ table m
  pub map_ok :
      (m : M) (p : Page4K) (frame : ℕ) (flags : MappingFlags)
      → (mapper.map_page m p frame flags).1 ≡ ok tt
      → (table m p.start_address ≡ none)
        × (table (mapper.map_page m p frame flags).0 ≡ put (table m) p.start_address (frame, flags))
  pub map_err :
      (m : M) (p : Page4K) (frame : ℕ) (flags : MappingFlags) (e : MappingError)
      → (mapper.map_page m p frame flags).1 ≡ err e
      → table (mapper.map_page m p frame flags).0 ≡ table m
  pub unmap_ok :
      (m : M) (p : Page4K) (frame : ℕ) (flags : MappingFlags)
      → table m p.start_address ≡ some (frame, flags)
      → ((mapper.unmap_page m p).1 ≡ ok frame)
        × (table (mapper.unmap_page m p).0 ≡ clear (table m) p.start_address)

pub put_same :
    (t : PageTable) (page : ℕ) (entry : ℕ × MappingFlags) → put t page entry page ≡ some entry
unfolding put
put_same t page entry = ground arith

pub clear-put :
    (t : PageTable) (page : ℕ) (entry : ℕ × MappingFlags)
    → t page ≡ none
    → clear (put t page entry) page ≡ t
unfolding put clear
clear-put t page entry free = fun_ext (λ a. elim (Bool-cases (nat_eq a page)) [
  | inl same ↦ let here : a ≡ page = ground arith in rw same (rw here (sym free))
  | inr other ↦ rw other refl
])
