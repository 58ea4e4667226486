-- ===== src/Process/Loader/Rounds.antt =====
-- A round of the loop over the pages of a segment, and the rollback of the pages that it mapped.
use x.Base.{
  ℕ, ◌+◌, ◌%◌, ◌≡◌, ◌∙◌, ◌⊎◌, inl, inr, refl, true, none, some, List, [], ◌∷◌, Option-cases,
  Result-cases, Bool-cases, arith, ok, err, nat_eq, leb,
}
use x.Memory.Page.{Page4K, from_start_address}
use x.Memory.Mapping.{MappingFlags, frame_allocation_failed}
use x.Memory.Mapper.{PageTableMapper, PageTable, Lawful, put, put_same, clear-put}
use x.Process.Loader.{
  LoadError, MappedPage, mapping_error, invalid_page, rollback, abandon, map_next,
}

-- The page table `t` is `t0` with the pages mapped one by one, the oldest last in the list, each
-- page aligned and free before, and with flags that `Allowed` grants it.
abbrev pub Laid : (ℕ → MappingFlags → Type 0) → PageTable → List MappedPage → PageTable → Type 0
Laid Allowed t0 [] t = t ≡ t0
Laid Allowed t0 (p ∷ ps) t =
    (u : PageTable) × (flags : MappingFlags) × Laid Allowed t0 ps u
    × (p.virtual_address % 4096 ≡ 0)
    × (u p.virtual_address ≡ none)
    × Allowed p.virtual_address flags
    × (t ≡ put u p.virtual_address (p.physical_address, flags))

module _ {M : Type 0} (mapper : PageTableMapper M) (table : M → PageTable)
    (lawful : Lawful mapper table) (Allowed : ℕ → MappingFlags → Type 0) (t0 : PageTable) where
  pub rollback-restores :
      (ps : List MappedPage) (m : M)
      → Laid Allowed t0 ps (table m)
      → ((rollback mapper ps m).1 ≡ ok tt) × (table (rollback mapper ps m).0 ≡ t0)
  unfolding rollback from_start_address
  rollback-restores [] m h = (refl, h)
  rollback-restores (p ∷ ps) m (u, flags, below, aligned, free, _, e) =
      let target : Page4K = record { start_address = p.virtual_address } in
      let a : nat_eq (p.virtual_address % 4096) 0 ≡ true = ground arith in
      let here : table m p.virtual_address ≡ some (p.physical_address, flags) =
        rw e (put_same u p.virtual_address (p.physical_address, flags)) in
      let (r, s) = lawful.unmap_ok m target p.physical_address flags here in
      let s' : table (mapper.unmap_page m target).0 ≡ u =
        s ∙ rw e (clear-put u p.virtual_address (p.physical_address, flags) free) in
      rw (a, r, rollback) (rollback-restores ps (mapper.unmap_page m target).0 (rw s' below))

  pub abandon-restores :
      {A : Type 0} (ps : List MappedPage) (e : LoadError) (m : M)
      → Laid Allowed t0 ps (table m)
      → (m' : M) × (abandon mapper {A = A} ps e m ≡ (m', err e)) × (table m' ≡ t0)
  unfolding abandon
  abandon-restores ps e m h =
      let (r, s) = rollback-restores ps m h in ((rollback mapper ps m).0, rw (r, abandon) refl, s)

  -- A round of the loop ends with the first page table again, or maps the page at its address.
  pub map_next-lem :
      (flags : MappingFlags) (address : ℕ) (ps : List MappedPage) (m : M)
      → Allowed address flags
      → Laid Allowed t0 ps (table m)
      → ((m' : M) × (e : LoadError) × (map_next mapper flags address ps m ≡ (m', err e))
          × (table m' ≡ t0))
        ⊎ ((m' : M) × (frame : ℕ) × (address % 4096 ≡ 0)
            × (map_next mapper flags address ps m ≡ (
              m',
              ok (
                address + 4096,
                record { virtual_address = address; physical_address = frame } ∷ ps,
              ),
            ))
            × Laid Allowed t0
                (record { virtual_address = address; physical_address = frame } ∷ ps)
                (table m'))
  unfolding map_next from_start_address
  map_next-lem flags address ps m allowed laid = elim (Bool-cases (nat_eq (address % 4096) 0)) [
    | inr odd ↦
        let (m', h, s) = abandon-restores {A = ℕ × List MappedPage} ps invalid_page m laid in
        inl (m', invalid_page, rw (odd, map_next) h, s)
    | inl even ↦
        let m1 = (mapper.allocate_frame m).0 in
        let target : Page4K = record { start_address = address } in
        let laid1 : Laid Allowed t0 ps (table m1) = rw (lawful.allocate_keeps m) laid in
        elim (Option-cases (mapper.allocate_frame m).1) [
          | inl exhausted ↦
              let e = mapping_error frame_allocation_failed in
              let (m', h, s) = abandon-restores {A = ℕ × List MappedPage} ps e m1 laid1 in
              inl (m', e, rw (even, exhausted, map_next) h, s)
          | inr (frame, got) ↦
              let m2 = (mapper.map_page m1 target frame flags).0 in
              elim (Result-cases (mapper.map_page m1 target frame flags).1) [
                | inr (x, refused) ↦
                    let e = mapping_error x in
                    let laid2 : Laid Allowed t0 ps (table m2) =
                      rw (lawful.map_err m1 target frame flags x refused) laid1 in
                    let (m', h, s) = abandon-restores {A = ℕ × List MappedPage} ps e m2 laid2 in
                    inl (m', e, rw (even, got, refused, map_next) h, s)
                | inl (_, done) ↦
                    let (free, after) = lawful.map_ok m1 target frame flags done in
                    let p : MappedPage = record {
                      virtual_address = address;
                      physical_address = frame;
                    } in
                    let laid2 : Laid Allowed t0 (p ∷ ps) (table m2) =
                      (table m1, flags, laid1, ground arith, free, allowed, after) in
                    elim (Bool-cases (leb (address + 4096) 18446744073709551615)) [
                      | inr over ↦
                          let (m', h, s) =
                            abandon-restores {A = ℕ × List MappedPage} (p ∷ ps) invalid_page m2
                              laid2 in
                          inl (m', invalid_page, rw (even, got, done, over, map_next) h, s)
                      | inl fits ↦ inr (
                        m2,
                        frame,
                        ground arith,
                        rw (even, got, done, fits, map_next) refl,
                        laid2,
                      )
                    ]
              ]
        ]
  ]
