-- ===== src/Process/Builder/Laws.antt =====
-- What the construction of an address space leaves behind: the whole image with its stack, or nothing.
use x.Base.{
  ℕ, ◌-◌, ◌%◌, ◌≡◌, ◌≢◌, ◌∙◌, ◌⊎◌, inl, inr, refl, sym, true, false, none, some, List, [], ◌∷◌,
  ◌++◌, map, Option-cases, Result-cases, Bool-cases, arith, ok, err, map_err, nat_eq, leb,
}
use mathlib.Core.List.{reverse, reverse-cons, append_assoc, append-nil, map-append}
use x.Memory.Page.{Page4K, from_start_address}
use x.Memory.Mapping.{MappingFlags, PageAccess, read_write}
use x.Memory.Mapper.{PageTableMapper, PageTable, Lawful, put, put_same, clear-put}
use x.Process.Image.{ProcessImage}
use x.Process.Loader.{LoadResult, MappedPage, rollback}
use x.Process.Loader.Rounds.{Laid, rollback-restores}
use x.Process.Builder.{
  AddressSpaceBuildError, MappedStackPage, BuiltAddressSpace, stack_mapping_failed, rollback_failed,
  verify_entry, verify_stack, rollback_load, rollback_stack, give_up, map_stack, finish,
}

-- The page table `t` is `t0` with the stack pages mapped one by one, the oldest last in the list, each
-- free before, readable and writable and never executable.
abbrev pub StackLaid : PageTable → List MappedStackPage → PageTable → Type 0
StackLaid t0 [] t = t ≡ t0
StackLaid t0 (p ∷ ps) t =
    (u : PageTable) × StackLaid t0 ps u
    × (u p.virtual_page.start_address ≡ none)
    × (t ≡ put u p.virtual_page.start_address (p.physical_address, read_write))

-- The two rollbacks of a load are the same but for their errors.
rollback_load-rollback :
    {M : Type 0} (mapper : PageTableMapper M) (ps : List MappedPage) (m : M)
    → rollback_load mapper ps m
      ≡ ((rollback mapper ps m).0, map_err (λ _. rollback_failed) (rollback mapper ps m).1)
unfolding rollback_load rollback from_start_address
rollback_load-rollback mapper [] m = refl
rollback_load-rollback mapper (p ∷ ps) m =
    let target : Page4K = record { start_address = p.virtual_address } in
    elim (Bool-cases (nat_eq (p.virtual_address % 4096) 0)) [
      | inr odd ↦ rw (odd, rollback_load, rollback) refl
      | inl even ↦ elim (Result-cases (mapper.unmap_page m target).1) [
        | inr (e, h) ↦ rw (even, h, rollback_load, rollback) refl
        | inl (f, h) ↦
            rw (even, h, rollback_load, rollback)
              (rollback_load-rollback mapper ps (mapper.unmap_page m target).0)
      ]
    ]

unfoldable pub stack_addresses : List MappedStackPage → List Page4K
stack_addresses ps = map (λ p. p.virtual_page) ps

next_address :
    (p : MappedStackPage) (stack : List MappedStackPage) (pages : List Page4K)
    → stack_addresses (reverse (p ∷ stack)) ++ pages
      ≡ stack_addresses (reverse stack) ++ p.virtual_page ∷ pages
unfolding stack_addresses
next_address p stack pages =
    rw (reverse-cons p stack, map-append (λ p. p.virtual_page) (reverse stack) (p ∷ []))
      (append_assoc (stack_addresses (reverse stack)) (p.virtual_page ∷ []) pages)

-- A page that user code may be entered at, and a page that may be a user stack.
abbrev pub Enterable : PageAccess → Type 0
Enterable a = (a.mapped ≡ true) × (a.user ≡ true) × (a.executable ≡ true)

abbrev pub Stackable : PageAccess → Type 0
Stackable a = (a.mapped ≡ true) × (a.user ≡ true) × (a.writable ≡ true) × (a.executable ≡ false)

verify_entry-ok : (a b : PageAccess) → verify_entry a ≡ ok b → (b ≡ a) × Enterable a
unfolding verify_entry
verify_entry-ok a b h = ground arith

verify_stack-ok : (a b : PageAccess) → verify_stack a ≡ ok b → (b ≡ a) × Stackable a
unfolding verify_stack
verify_stack-ok a b h = ground arith

module _ {M : Type 0} (mapper : PageTableMapper M) (table : M → PageTable)
    (lawful : Lawful mapper table) where
  rollback_stack-restores :
      (u : PageTable) (ps : List MappedStackPage) (m : M)
      → StackLaid u ps (table m)
      → ((rollback_stack mapper ps m).1 ≡ ok tt) × (table (rollback_stack mapper ps m).0 ≡ u)
  unfolding rollback_stack
  rollback_stack-restores u [] m h = (refl, h)
  rollback_stack-restores u (p ∷ ps) m (v, below, free, e) =
      let entry : ℕ × MappingFlags = (p.physical_address, read_write) in
      let here : table m p.virtual_page.start_address ≡ some entry =
        rw e (put_same v p.virtual_page.start_address entry) in
      let (r, s) = lawful.unmap_ok m p.virtual_page p.physical_address read_write here in
      let s' : table (mapper.unmap_page m p.virtual_page).0 ≡ v =
        s ∙ rw e (clear-put v p.virtual_page.start_address entry free) in
      rw (r, rollback_stack)
        (rollback_stack-restores u ps (mapper.unmap_page m p.virtual_page).0 (rw s' below))

  module _ (Allowed : ℕ → MappingFlags → Type 0) (t0 u : PageTable) (load : LoadResult)
      (loaded : Laid Allowed t0 (reverse load.pages) u) where
    give_up-restores :
        {A : Type 0} (stack : List MappedStackPage) (e : AddressSpaceBuildError) (m : M)
        → StackLaid u stack (table m)
        → (m' : M) × (give_up mapper {A = A} load stack e m ≡ (m', err e)) × (table m' ≡ t0)
    unfolding give_up
    give_up-restores stack e m laid =
        let (r, s) = rollback_stack-restores u stack m laid in
        let m1 = (rollback_stack mapper stack m).0 in
        let (q, t) =
          rollback-restores mapper table lawful Allowed t0 (reverse load.pages) m1 (rw s loaded) in
        let b = rollback_load-rollback mapper (reverse load.pages) m1 in
        let z : (rollback_load mapper (reverse load.pages) m1).1 ≡ ok tt = rw (b, q) refl in
        ((rollback_load mapper (reverse load.pages) m1).0, rw (r, z, give_up) refl, rw b t)

    pub map_stack-Ends :
        (pages : List Page4K) (stack : List MappedStackPage) (m : M)
        → StackLaid u stack (table m)
        → ((m' : M) × (e : AddressSpaceBuildError) × (map_stack mapper load pages stack m
              ≡ (m', err e))
            × (table m' ≡ t0))
          ⊎ ((m' : M) × (qs : List MappedStackPage) × (map_stack mapper load pages stack m
                ≡ (m', ok qs))
              × StackLaid u qs (table m')
              × (stack_addresses (reverse qs) ≡ stack_addresses (reverse stack) ++ pages))
    unfolding map_stack
    map_stack-Ends [] stack m laid =
        inr (m, stack, refl, laid, sym (append-nil (stack_addresses (reverse stack))))
    map_stack-Ends (page ∷ pages) stack m laid =
        let m1 = (mapper.allocate_frame m).0 in
        let laid1 : StackLaid u stack (table m1) = rw (lawful.allocate_keeps m) laid in
        elim (Option-cases (mapper.allocate_frame m).1) [
          | inl exhausted ↦
              let (m', h, s) =
                give_up-restores {A = List MappedStackPage} stack stack_mapping_failed m1 laid1 in
              inl (m', stack_mapping_failed, rw (exhausted, map_stack) h, s)
          | inr (frame, got) ↦
              let m2 = (mapper.map_page m1 page frame read_write).0 in
              elim (Result-cases (mapper.map_page m1 page frame read_write).1) [
                | inr (x, refused) ↦
                    let laid2 : StackLaid u stack (table m2) =
                      rw (lawful.map_err m1 page frame read_write x refused) laid1 in
                    let (m', h, s) =
                      give_up-restores {A = List MappedStackPage} stack stack_mapping_failed m2
                        laid2 in
                    inl (m', stack_mapping_failed, rw (got, refused, map_stack) h, s)
                | inl (_, done) ↦
                    let (free, after) = lawful.map_ok m1 page frame read_write done in
                    let p : MappedStackPage = record {
                      virtual_page = page;
                      physical_address = frame;
                    } in
                    elim (map_stack-Ends pages (p ∷ stack) m2 (table m1, laid1, free, after)) [
                      | inl (m', e, h, s) ↦ inl (m', e, rw (got, done, map_stack) h, s)
                      | inr (m', qs, h, s, all) ↦
                          inr (
                            m',
                            qs,
                            rw (got, done, map_stack) h,
                            s,
                            all ∙ next_address p stack pages,
                          )
                    ]
              ]
        ]

    -- The checks passed, on the mapper's answers, and the description says so.
    abbrev Checked : ProcessImage → M → BuiltAddressSpace → Type 0
    Checked image m built =
        (built.image ≡ image)
        × (built.load ≡ load)
        × Enterable (mapper.page_access m load.entry)
        × Stackable (mapper.page_access m (image.stack_plan.initial_rsp - 1))
        × (built.entry_executable ≡ true)
        × (built.stack_writable ≡ true)
        × (built.stack_executable ≡ false)

    pub finish-Checked :
        (image : ProcessImage) (stack : List MappedStackPage) (m : M)
        → image.stack_plan.initial_rsp ≢ 0
        → StackLaid u stack (table m)
        → ((m' : M) × (e : AddressSpaceBuildError) × (finish mapper image load stack m
              ≡ (m', err e))
            × (table m' ≡ t0))
          ⊎ ((built : BuiltAddressSpace) × (finish mapper image load stack m ≡ (m, ok built))
              × (built.stack_pages ≡ reverse stack)
              × Checked image m built)
    unfolding finish
    finish-Checked image stack m rsp laid =
        let entry = mapper.page_access m load.entry in
        let top = mapper.page_access m (image.stack_plan.initial_rsp - 1) in
        let le : leb 1 image.stack_plan.initial_rsp ≡ true = ground arith in
        elim (Result-cases (verify_entry entry)) [
          | inr (e, h) ↦
              let (m', g, s) = give_up-restores {A = BuiltAddressSpace} stack e m laid in
              inl (m', e, rw (h, finish) g, s)
          | inl (a, h) ↦ elim (Result-cases (verify_stack top)) [
            | inr (e, k) ↦
                let (m', g, s) = give_up-restores {A = BuiltAddressSpace} stack e m laid in
                inl (m', e, rw (h, le, k, finish) g, s)
            | inl (b, k) ↦
                let (p, enter) = verify_entry-ok entry a h in
                let (q, use_stack) = verify_stack-ok top b k in
                let built : BuiltAddressSpace = record {
                  image = image;
                  load = load;
                  stack_pages = reverse stack;
                  entry_executable = a.executable;
                  stack_writable = b.writable;
                  stack_executable = b.executable;
                } in
                inr (
                  built,
                  rw (h, le, k, finish) refl,
                  refl,
                  (refl, refl, enter, use_stack, rw p enter.2, rw q use_stack.2, rw q use_stack.3),
                )
          ]
        ]
