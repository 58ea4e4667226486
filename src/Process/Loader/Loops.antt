-- ===== src/Process/Loader/Loops.antt =====
-- The loops over the pages and over the segments of a load plan.
use x.Base.{
  ℕ, zero, suc, ◌+◌, ◌-◌, ◌%◌, ◌≤◌, ◌<◌, ◌≡◌, ◌⊎◌, inl, inr, refl, sym, true, some, List, [], ◌∷◌,
  length, get_elem?, Bool-cases, arith, Result, ok, err, ltb,
}
use x.Memory.Page.{page_base}
use x.Memory.Mapping.{MappingFlags}
use x.Memory.Mapper.{PageTableMapper, PageTable, Lawful}
use x.Process.LoadPlan.{SegmentMapping}
use x.Process.Loader.{
  LoadError, MappedPage, too_many_pages, max_mapped_pages, any_page, flags_from_elf, map_pages,
  map_segments,
}
use x.Process.Loader.Rounds.{Laid, abandon-restores, map_next-lem}

-- Each page of one list is a page of another.
abbrev pub Within : List MappedPage → List MappedPage → Type 0
Within ps qs = (b : ℕ) → any_page ps b ≡ true → any_page qs b ≡ true

-- Every address of a range lies in a page of the list.
abbrev pub Covers : ℕ → ℕ → List MappedPage → Type 0
Covers start end ps = (a : ℕ) → start ≤ a → a < end → any_page ps (page_base a) ≡ true

first_page : (a b : ℕ) → b % 4096 ≡ 0 → b ≤ a → a < b + 4096 → page_base a ≡ b
first_page a b h low high = omega arith

any_page-here :
    (p : MappedPage) (ps : List MappedPage) (b : ℕ)
    → p.virtual_address ≡ b
    → any_page (p ∷ ps) b ≡ true
unfolding any_page
any_page-here p ps b h = ground arith

any_page-there : (p : MappedPage) (ps : List MappedPage) → Within ps (p ∷ ps)
unfolding any_page
any_page-there p ps b h = ground arith

module _ {M : Type 0} (mapper : PageTableMapper M) (table : M → PageTable)
    (lawful : Lawful mapper table) (Allowed : ℕ → MappingFlags → Type 0) (t0 : PageTable) where
  -- A loop that was entered with `ps` fails with the first page table again, or maps the rest.
  abbrev Ends :
      (List MappedPage → Type 0) → List MappedPage → M × Result LoadError (List MappedPage) → Type 0
  Ends Done ps r =
      ((m' : M) × (e : LoadError) × (r ≡ (m', err e)) × (table m' ≡ t0))
      ⊎ ((m' : M) × (qs : List MappedPage) × (r ≡ (m', ok qs))
          × Laid Allowed t0 qs (table m')
          × Within ps qs
          × (length qs ≤ max_mapped_pages)
          × Done qs)

  map_pages-Ends :
      (room : ℕ) (flags : MappingFlags) (address end : ℕ) (ps : List MappedPage) (m : M)
      → length ps + room ≡ max_mapped_pages
      → ((a : ℕ) → address ≤ a → a < end → Allowed a flags)
      → Laid Allowed t0 ps (table m)
      → Ends (Covers address end) ps (map_pages mapper room flags address end ps m)
  unfolding map_pages
  map_pages-Ends zero flags address end ps m count allowed laid =
      elim (Bool-cases (ltb address end)) [
        | inr done ↦ inr (
          m,
          ps,
          rw (done, map_pages) refl,
          laid,
          λ b h. h,
          omega arith,
          λ a low high. absurd (ground arith),
        )
        | inl more ↦
            let (m', h, s) =
              abandon-restores mapper table lawful Allowed t0 {A = List MappedPage} ps
                too_many_pages m laid in
            inl (m', too_many_pages, rw (more, map_pages) h, s)
      ]
  map_pages-Ends (suc room) flags address end ps m count allowed laid =
      elim (Bool-cases (ltb address end)) [
        | inr done ↦ inr (
          m,
          ps,
          rw (done, map_pages) refl,
          laid,
          λ b h. h,
          omega arith,
          λ a low high. absurd (ground arith),
        )
        | inl more ↦
            elim (map_next-lem mapper table lawful Allowed t0 flags address ps m
              (allowed address (omega arith) (ground arith)) laid) [
                | inl (m1, e, h, s) ↦ inl (m1, e, rw (more, h, map_pages) (rw h refl), s)
                | inr (m1, frame, aligned, h, laid1) ↦
                    let p : MappedPage = record {
                      virtual_address = address;
                      physical_address = frame;
                    } in
                    elim (map_pages-Ends room flags (address + 4096) end (p ∷ ps) m1 (omega arith)
                      (λ a low high. allowed a (omega arith) high) laid1) [
                        | inl (m2, e, g, s) ↦ inl (m2, e, rw (more, h, map_pages) (rw h g), s)
                        | inr (m2, qs, g, laid2, within, bound, covers) ↦
                            let covers1 : Covers address end qs = λ a low high.
                              elim (Bool-cases (ltb a (address + 4096))) [
                                | inl near ↦ within (page_base a) (
                                    any_page-here p ps (page_base a)
                                      (sym (first_page a address aligned low (ground arith))))
                                | inr far ↦ covers a (ground arith) high
                              ] in
                            inr (
                              m2,
                              qs,
                              rw (more, h, map_pages) (rw h g),
                              laid2,
                              λ b k. within b (any_page-there p ps b k),
                              bound,
                              covers1,
                            )
                      ]
              ]
      ]

  -- Every segment of a list lies in the pages.
  abbrev CoversAll : List SegmentMapping → List MappedPage → Type 0
  CoversAll ss ps =
      (i : ℕ) (s : SegmentMapping)
      → get_elem? ss i ≡ some s
      → Covers s.virtual_range.start s.virtual_range.end ps

  CoversAll-cons :
      (s : SegmentMapping) (ss : List SegmentMapping) (qs rs : List MappedPage)
      → Covers s.virtual_range.start s.virtual_range.end qs
      → Within qs rs
      → CoversAll ss rs
      → CoversAll (s ∷ ss) rs
  CoversAll-cons s ss qs rs covers within all zero t h a low high =
      within (page_base a) (covers a (ground arith) (ground arith))
  CoversAll-cons s ss qs rs covers within all (suc i) t h a low high = all i t h a low high

  pub map_segments-Ends :
      (ss : List SegmentMapping) (ps : List MappedPage) (m : M)
      → length ps ≤ max_mapped_pages
      → ((i : ℕ) (s : SegmentMapping)
          → get_elem? ss i ≡ some s
          → (flags : MappingFlags) × (flags_from_elf s.flags ≡ some flags)
            × ((a : ℕ) → s.virtual_range.start ≤ a → a < s.virtual_range.end → Allowed a flags))
      → Laid Allowed t0 ps (table m)
      → Ends (CoversAll ss) ps (map_segments mapper ss ps m)
  unfolding map_segments
  map_segments-Ends [] ps m room allowed laid =
      inr (m, ps, refl, laid, λ b h. h, room, λ i s h. absurd (ground arith))
  map_segments-Ends (s ∷ ss) ps m room allowed laid =
      let (flags, f, granted) = allowed 0 s refl in
      let range = s.virtual_range in
      elim (map_pages-Ends (max_mapped_pages - length ps) flags range.start range.end ps m
        (omega arith) granted laid) [
          | inl (m1, e, h, z) ↦ inl (m1, e, rw (f, h, map_segments) (rw h refl), z)
          | inr (m1, qs, h, laid1, within, room1, covers) ↦
              elim (map_segments-Ends ss qs m1 room1 (λ i. allowed (suc i)) laid1) [
                | inl (m2, e, g, z) ↦ inl (m2, e, rw (f, h, map_segments) (rw h g), z)
                | inr (m2, rs, g, laid2, within2, room2, all) ↦ inr (
                  m2,
                  rs,
                  rw (f, h, map_segments) (rw h g),
                  laid2,
                  λ b k. within2 b (within b k),
                  room2,
                  CoversAll-cons s ss qs rs covers within2 all,
                )
              ]
        ]
