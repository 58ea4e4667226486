-- ===== src/Process/Builder/Whole.antt =====
-- The construction of an address space as a whole.
use x.Base.{
  zero, suc, ◌∷◌, ◌&&◌, some, get_elem?, arith, ℕ, ◌-◌, ◌/◌, ◌%◌, nat_eq, ◌≡◌, ◌≢◌, ◌⊎◌, inl, inr,
  refl, true, false, List, [], Bool-cases, ok, err,
}
use mathlib.Core.List.{reverse, reverse-reverse}
use x.Memory.Mapper.{PageTableMapper, PageTable, Lawful}
use x.Process.AddressSpace.{AddressSpaceId, AddressSpaceSpec, id_eq, new_spec}
use x.Process.Elf.{ElfImage}
use x.Process.LoadPlan.{LoadPlan, SegmentMapping, build}
use x.Process.LoadPlan.Laws.{AllSafe, build-Plans}
use x.Process.Image.{ProcessImage, UserStackPlan, build_image, new_context}
use x.Memory.Layout.{is_valid_user_stack_pointer, user_stack_range}
use x.Process.Loader.Pages.{Granted, Separated, Loads}
use x.Process.Loader.Laws.{map_load_plan-Loads}
use x.Process.Builder.{
  AddressSpaceBuildError, BuiltAddressSpace, address_space_mismatch, image_error,
  build_address_space,
}
use x.Process.Builder.Laws.{
  StackLaid, stack_addresses, Enterable, Stackable, map_stack-Ends, finish-Checked,
}

module _ {M : Type 0} (mapper : PageTableMapper M) (table : M → PageTable)
    (lawful : Lawful mapper table) where
  -- The pages of the image are mapped as its plan says, and above them exactly the stack pages of the
  -- plan, in order; the mapper lets the user execute at the entry and write, but not execute, below
  -- the stack pointer, and the description says so.
  abbrev pub Builds : ProcessImage → M → BuiltAddressSpace → M → Type 0
  Builds image m built m' =
      (u : PageTable) × Loads image.load_plan (table m) built.load u
      × StackLaid u (reverse built.stack_pages) (table m')
      × (stack_addresses built.stack_pages ≡ image.stack_plan.pages)
      × (built.image ≡ image)
      × Enterable (mapper.page_access m' built.load.entry)
      × Stackable (mapper.page_access m' (image.stack_plan.initial_rsp - 1))
      × (built.entry_executable ≡ true)
      × (built.stack_writable ≡ true)
      × (built.stack_executable ≡ false)

  -- Building the address space of an image whose segments are never writable and executable at once,
  -- and whose stack pointer is not zero, is all or nothing, with any mapper that keeps to the contract
  -- of page tables: an error leaves the page table as it was, and a success leaves the image and the
  -- stack mapped and checked.
  pub build_address_space-Builds :
      (spec : AddressSpaceSpec) (image : ProcessImage) (m : M)
      → Separated image.load_plan
      → image.stack_plan.initial_rsp ≢ 0
      → ((m' : M) × (e : AddressSpaceBuildError) × (build_address_space mapper spec image m
            ≡ (m', err e))
          × (table m' ≡ table m))
        ⊎ ((m' : M) × (built : BuiltAddressSpace) × (build_address_space mapper spec image m
              ≡ (m', ok built))
            × Builds image m built m')
  unfolding build_address_space stack_addresses
  build_address_space-Builds spec image m separated rsp =
      elim (Bool-cases (id_eq image.address_space.id spec.id)) [
        | inr other ↦ inl (m, address_space_mismatch, rw (other, build_address_space) refl, refl)
        | inl same ↦ elim (map_load_plan-Loads mapper table lawful image.load_plan m separated) [
          | inl (m1, e, h, restored) ↦
              inl (m1, image_error e, rw (same, h, build_address_space) (rw h refl), restored)
          | inr (m1, load, h, loads) ↦
              let laid = loads.2 in
              elim (map_stack-Ends mapper table lawful (Granted image.load_plan) (table m)
                (table m1) load laid image.stack_plan.pages [] m1 refl) [
                  | inl (m2, e, k, restored) ↦ inl (
                    m2,
                    e,
                    rw (same, h, build_address_space) (rw (h, k) (rw (h, k) refl)),
                    restored,
                  )
                  | inr (m2, stack, k, stack_laid, addresses) ↦
                      elim (finish-Checked mapper table lawful (Granted image.load_plan) (table m)
                        (table m1) load laid image stack m2 rsp stack_laid) [
                          | inl (m3, e, f, restored) ↦ inl (
                            m3,
                            e,
                            rw (same, h, build_address_space) (rw (h, k) (rw (h, k) f)),
                            restored,
                          )
                          | inr (built, f, pages, (i, l, enter, use_stack, x, y, z)) ↦ inr (
                            m2,
                            built,
                            rw (same, h, build_address_space) (rw (h, k) (rw (h, k) f)),
                            (
                              table m1,
                              rw l loads,
                              rw (pages, reverse-reverse stack) stack_laid,
                              rw pages addresses,
                              i,
                              rw l enter,
                              use_stack,
                              x,
                              y,
                              z,
                            ),
                          )
                        ]
                ]
        ]
      ]

-- A plan that is built from an ELF image never has a segment that is writable and executable at once.
AllSafe-flags :
    (ms : List SegmentMapping) (i : ℕ) (s : SegmentMapping)
    → AllSafe ms
    → get_elem? ms i ≡ some s
    → (nat_eq (s.flags / 2 % 2) 1 && nat_eq (s.flags % 2) 1) ≡ false
AllSafe-flags [] i s safe h = absurd (ground arith)
AllSafe-flags (m ∷ ms) zero s (safe, _) h = let e : m ≡ s = ground arith in rw (← e) safe.not_both
AllSafe-flags (m ∷ ms) (suc i) s (_, safe) h = AllSafe-flags ms i s safe h

pub build-Separated :
    (id : AddressSpaceId) (elf : ElfImage) (plan : LoadPlan)
    → build (new_spec id) elf ≡ ok plan
    → Separated plan
build-Separated id elf plan h i s k =
    let (_, plans, _) = build-Plans id elf plan h in AllSafe-flags plan.segments i s plans.safe k

-- A process image keeps the load plan, and its stack pointer is not zero.
build_image-parts :
    (spec : AddressSpaceSpec) (plan : LoadPlan) (stack : UserStackPlan) (image : ProcessImage)
    → build_image spec plan stack ≡ ok image
    → (image.load_plan ≡ plan) × (image.stack_plan.initial_rsp ≢ 0)
unfolding build_image new_context is_valid_user_stack_pointer user_stack_range
build_image-parts spec plan stack image h = (ground arith, ground arith)

module _ {M : Type 0} (mapper : PageTableMapper M) (table : M → PageTable)
    (lawful : Lawful mapper table) where
  -- From the bytes of a parsed ELF image to an address space: where the load plan and the process
  -- image are built from the ELF image, the construction of the address space either fails and leaves
  -- the page table as it was, or maps exactly the pages of the plan and of the stack, none of them
  -- mapped before, covers every address of the planned segments, and leaves an entry that the user may
  -- execute and a stack that the user may write and not execute. The mapper is any that keeps to the
  -- contract of page tables.
  pub build_address_space-elf :
      (id : AddressSpaceId) (elf : ElfImage) (plan : LoadPlan) (stack : UserStackPlan)
      (image : ProcessImage) (m : M)
      → build (new_spec id) elf ≡ ok plan
      → build_image (new_spec id) plan stack ≡ ok image
      → ((m' : M) × (e : AddressSpaceBuildError) × (build_address_space mapper (new_spec id) image m
            ≡ (m', err e))
          × (table m' ≡ table m))
        ⊎ ((m' : M) × (built : BuiltAddressSpace) × (build_address_space mapper
                (new_spec id)
                image
                m
              ≡ (m', ok built))
            × Builds mapper table lawful image m built m')
  build_address_space-elf id elf plan stack image m h k =
      let (same, rsp) = build_image-parts (new_spec id) plan stack image k in
      let separated : Separated image.load_plan = rw same (build-Separated id elf plan h) in
      build_address_space-Builds mapper table lawful (new_spec id) image m separated rsp
