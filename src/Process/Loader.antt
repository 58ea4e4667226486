-- ===== src/Process/Loader.antt =====
-- The mapping of a load plan, kernel/src/process/loader.rs. The array of mapped pages with its count
-- is the list of the pages that were set: newest first in the loop, which rolls back in that order,
-- and in the order of the array in the result.
pub mod Rounds
pub mod Loops
pub mod Pages
pub mod Laws
use x.Base.{
  ℕ, zero, suc, ◌-◌, ◌/◌, ◌%◌, Bool, true, false, not, ◌&&◌, ◌||◌, Option, none, some, List, [],
  ◌∷◌, length, get_elem?, ltb, leb, nat_eq, if◌then◌else◌, is_some, checked_add, Result, ok, err,
  ◌>>=◌,
}
use mathlib.Core.List.{reverse}
use x.Memory.Page.{from_start_address, page_base, page_size_4k}
use x.Memory.Ranges.{VirtRange}
use x.Memory.Mapping.{
  MappingError, MappingFlags, frame_allocation_failed, read_only, read_write, read_execute,
}
use x.Memory.Mapper.{PageTableMapper}
use x.Process.LoadPlan.{LoadPlan, SegmentMapping}

pub data LoadError : Type 0 where
  invalid_page : LoadError
  mapping_error : MappingError → LoadError
  too_many_pages invalid_flags rollback_failed : LoadError

abbrev pub max_mapped_pages : ℕ
max_mapped_pages = 128

pub record MappedPage : Type 0 where
  pub virtual_address : ℕ
  pub physical_address : ℕ

pub record LoadResult : Type 0 where
  pub entry : ℕ
  pub pages : List MappedPage

unfoldable pub mapped_pages : LoadResult → ℕ
mapped_pages r = length r.pages

unfoldable pub page : LoadResult → ℕ → Option MappedPage
unfolding mapped_pages
page r index = if leb (mapped_pages r) index then none else get_elem? r.pages index

-- `(0..mapped_pages).any(|index| page(index).virtual_address == address)`
unfoldable pub any_page : List MappedPage → ℕ → Bool
any_page [] address = false
any_page (p ∷ ps) address = nat_eq p.virtual_address address || any_page ps address

unfoldable pub contains_page : LoadResult → ℕ → Bool
unfolding any_page
contains_page r virtual_address = any_page r.pages (page_base virtual_address)

unfoldable pub flags_from_elf : ℕ → Option MappingFlags
flags_from_elf flags =
    let writable = nat_eq (flags / 2 % 2) 1 in
    let executable = nat_eq (flags % 2) 1 in
    if writable && executable
    then none
    else if writable
    then some read_write
    else if executable
    then some read_execute
    else some read_only

module _ {M : Type 0} (mapper : PageTableMapper M) where
  unfoldable pub rollback : List MappedPage → M → M × Result LoadError (Unit {0})
  unfolding from_start_address
  rollback [] m = (m, ok tt)
  rollback (mapped ∷ rest) m = elim (from_start_address mapped.virtual_address) [
    | none ↦ (m, err invalid_page)
    | some target ↦
        let (m', r) = mapper.unmap_page m target in
        elim r [ err _ ↦ (m', err rollback_failed) | ok _ ↦ rollback rest m' ]
  ]

  -- `rollback(mapper, &pages, count)?; return Err(error);`
  unfoldable pub abandon : {A : Type 0} → List MappedPage → LoadError → M → M × Result LoadError A
  unfolding rollback
  abandon pages error m = let (m', r) = rollback pages m in (m', r >>= λ _. err error)

  -- One round of the loop over the pages of a segment, below the limit of pages: the next address
  -- and the pages so far.
  unfoldable pub map_next :
      MappingFlags → ℕ → List MappedPage → M → M × Result LoadError (ℕ × List MappedPage)
  unfolding from_start_address abandon
  map_next flags address pages m = elim (from_start_address address) [
    | none ↦ abandon pages invalid_page m
    | some target ↦
        let (m1, allocated) = mapper.allocate_frame m in
        elim allocated [
          | none ↦ abandon pages (mapping_error frame_allocation_failed) m1
          | some frame ↦
              let (m2, r) = mapper.map_page m1 target frame flags in
              elim r [
                | err error ↦ abandon pages (mapping_error error) m2
                | ok _ ↦
                    let mapped : MappedPage = record {
                      virtual_address = address;
                      physical_address = frame;
                    } in
                    elim (checked_add address page_size_4k) [
                      | none ↦ abandon (mapped ∷ pages) invalid_page m2
                      | some next ↦ (m2, ok (next, mapped ∷ pages))
                    ]
              ]
        ]
  ]

  -- The loop over the pages of a segment. `room` is `max_mapped_pages` less the count, so that the
  -- test `count == MAX_MAPPED_PAGES` is that there is none left.
  unfoldable pub map_pages :
      ℕ → MappingFlags → ℕ → ℕ → List MappedPage → M → M × Result LoadError (List MappedPage)
  unfolding abandon map_next
  map_pages zero flags address end pages m = elim (ltb address end) [
    | false ↦ (m, ok pages)
    | true ↦ abandon pages too_many_pages m
  ]
  map_pages (suc room) flags address end pages m = elim (ltb address end) [
    | false ↦ (m, ok pages)
    | true ↦
        let (m', r) = map_next flags address pages m in
        elim r [ err e ↦ (m', err e) | ok (next, pages') ↦ map_pages room flags next end pages' m' ]
  ]

  -- The loop over the segments of the plan.
  unfoldable pub map_segments :
      List SegmentMapping → List MappedPage → M → M × Result LoadError (List MappedPage)
  unfolding flags_from_elf map_pages
  map_segments [] pages m = (m, ok pages)
  map_segments (s ∷ ss) pages m = elim (flags_from_elf s.flags) [
    | none ↦ (m, err invalid_flags)
    | some flags ↦
        let (m', r) =
          map_pages (max_mapped_pages - length pages) flags s.virtual_range.start
            s.virtual_range.end pages m in
        elim r [ err e ↦ (m', err e) | ok pages' ↦ map_segments ss pages' m' ]
  ]

  unfoldable pub map_load_plan : LoadPlan → M → M × Result LoadError LoadResult
  unfolding map_segments
  map_load_plan plan m =
      let (m', r) = map_segments plan.segments [] m in
      (m', r >>= λ pages. ok (record { entry = plan.entry; pages = reverse pages }))
