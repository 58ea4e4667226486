-- ===== src/Process/Loader/Laws.antt =====
-- What the mapping of a load plan leaves behind: all of its pages, or none.
use x.Base.{◌≡◌, ◌∙◌, ◌⊎◌, inl, inr, refl, [], arith, ok, err}
use mathlib.Core.List.{reverse, reverse-reverse}
use x.Memory.Page.{page_base}
use x.Memory.Ranges.{virt_contains}
use x.Memory.Mapper.{PageTableMapper, PageTable, Lawful}
use x.Process.LoadPlan.{LoadPlan}
use x.Process.Loader.{LoadError, LoadResult, mapped_pages, contains_page, map_load_plan}
use x.Process.Loader.Loops.{map_segments-Ends}
use x.Process.Loader.Pages.{
  any_page-reverse, length-reverse, flags_from_elf-Permits, any_page-PageOf, Granted, Separated,
  Loads,
}

module _ {M : Type 0} (mapper : PageTableMapper M) (table : M → PageTable)
    (lawful : Lawful mapper table) where
  -- Loading a plan whose segments are never writable and executable at once is all or nothing, with
  -- any mapper that keeps to the contract of page tables. A failure leaves the page table that it
  -- found. A success maps at most 128 pages, each aligned, free before, readable, and writable and
  -- executable just as the flags of a segment that it starts in say; it changes nothing else, and the
  -- page of every address of every segment is one of them.
  pub map_load_plan-Loads :
      (plan : LoadPlan) (m : M)
      → Separated plan
      → ((m' : M) × (e : LoadError) × (map_load_plan mapper plan m ≡ (m', err e))
          × (table m' ≡ table m))
        ⊎ ((m' : M) × (load : LoadResult) × (map_load_plan mapper plan m ≡ (m', ok load))
            × Loads plan (table m) load (table m'))
  unfolding map_load_plan mapped_pages contains_page virt_contains
  map_load_plan-Loads plan m separated =
      elim (map_segments-Ends mapper table lawful (Granted plan) (table m) plan.segments [] m
        (omega arith)
        (λ i s h.
          let (flags, f, bits) = flags_from_elf-Permits s.flags (separated i s h) in
          (flags, f, λ a low high. (i, s, h, f, bits, low, high)))
        refl) [
          | inl (m', e, h, same) ↦ inl (m', e, rw (h, map_load_plan) refl, same)
          | inr (m', qs, h, laid, _, bound, covers) ↦
              let load : LoadResult = record { entry = plan.entry; pages = reverse qs } in
              inr (
                m',
                load,
                rw (h, map_load_plan) refl,
                (
                  refl,
                  omega (arith, length-reverse qs),
                  rw (reverse-reverse qs) laid,
                  λ i s k a low high.
                      let found = any_page-reverse qs (page_base a) ∙ covers i s k a low high in
                      (found, any_page-PageOf (reverse qs) a found),
                ),
              )
        ]
