-- ===== src/Process/Launch/Laws.antt =====
-- An address space that was built can be launched.
use x.Base.{
  ℕ, suc, ◌≡◌, refl, subst, Bool, true, false, ◌||◌, some, List, [], ◌∷◌, nat_eq, get_elem?, Result,
  ok, err, arith, Bool-cases, inl, inr,
}
use x.Memory.Page.{Page4K}
use x.Memory.Ranges.{virt_contains}
use x.Memory.Mapper.{PageTableMapper, PageTable, Lawful}
use x.Process.AddressSpace.{AddressSpaceId, new_spec}
use x.Process.Elf.{ElfImage}
use x.Process.LoadPlan.{LoadPlan, SegmentMapping, build}
use x.Process.LoadPlan.Laws.{entry_mapped, build-Plans}
use x.Process.Image.{
  ProcessImage, StackPlanError, UserStackPlan, plan_pages, build_stack, build_image, new_context,
}
use x.Process.Loader.{contains_page}
use x.Process.Builder.{MappedStackPage, BuiltAddressSpace}
use x.Process.Builder.Laws.{stack_addresses}
use x.Process.Builder.Whole.{Builds}
use x.Process.Launch.{page_holds, any_holds, from_populated}

-- `any_holds`, on the addresses of the pages.
unfoldable pages_hold : ℕ → List Page4K → Bool
unfolding page_holds
pages_hold sp [] = false
pages_hold sp (p ∷ ps) =
    page_holds sp (record { virtual_page = p; physical_address = 0 }) || pages_hold sp ps

any_holds-pages :
    (sp : ℕ) (ps : List MappedStackPage) → any_holds sp ps ≡ pages_hold sp (stack_addresses ps)
unfolding any_holds pages_hold page_holds stack_addresses
any_holds-pages sp [] = refl
any_holds-pages sp (p ∷ ps) = ground (arith, any_holds-pages sp ps)

-- The stack of the plan reaches up to the first stack pointer.
abbrev Reaches : Result StackPlanError UserStackPlan → Type 0
Reaches (ok stack) =
    (pages_hold stack.initial_rsp stack.pages ≡ true) × (nat_eq stack.initial_rsp 0 ≡ false)
Reaches (err e) = ⊥

build_stack-Reaches : Reaches build_stack
unfolding build_stack pages_hold plan_pages page_holds
build_stack-Reaches = (refl, refl)

-- The entry of a built plan lies in one of its segments.
entry_mapped-some :
    (entry : ℕ) (ms : List SegmentMapping)
    → entry_mapped entry ms ≡ true
    → (i : ℕ) × (m : SegmentMapping) × (get_elem? ms i ≡ some m)
      × (virt_contains m.virtual_range entry ≡ true)
unfolding entry_mapped virt_contains
entry_mapped-some entry [] h = absurd (ground arith)
entry_mapped-some entry (m ∷ ms) h = elim (Bool-cases (virt_contains m.virtual_range entry)) [
  | inl here ↦ (0, m, refl, here)
  | inr there ↦
      let (i, n, k, inside) = entry_mapped-some entry ms (ground arith) in (suc i, n, k, inside)
]

-- What a process image takes over from its plans.
build_image-context :
    (id : AddressSpaceId) (plan : LoadPlan) (stack : UserStackPlan) (image : ProcessImage)
    → build_image (new_spec id) plan stack ≡ ok image
    → (image.address_space ≡ new_spec id)
      × (image.load_plan ≡ plan)
      × (image.stack_plan ≡ stack)
      × (image.context.entry ≡ plan.entry)
      × (image.context.stack_pointer ≡ stack.initial_rsp)
unfolding build_image new_context
build_image-context id plan stack image h =
    (ground arith, ground arith, ground arith, ground arith, ground arith)

module _ {M : Type 0} (mapper : PageTableMapper M) (table : M → PageTable)
    (lawful : Lawful mapper table) where
  -- An address space that was built for an ELF image, with its load plan and the standard user stack,
  -- is always accepted for launch: the plan to launch it names its address space, starts at the entry
  -- of the ELF image and has the top of the user stack as its stack pointer.
  pub from_populated-built :
      (id : AddressSpaceId) (elf : ElfImage) (plan : LoadPlan) (stack : UserStackPlan)
      (image : ProcessImage) (m m' : M) (built : BuiltAddressSpace)
      → build (new_spec id) elf ≡ ok plan
      → build_stack ≡ ok stack
      → build_image (new_spec id) plan stack ≡ ok image
      → Builds mapper table lawful image m built m'
      → from_populated (record { built = built })
        ≡ ok (record { address_space = id; entry = elf.entry; stack_pointer = stack.initial_rsp })
  unfolding from_populated new_spec virt_contains
  from_populated-built id elf plan stack image m m' built h k l
        (u, (_, _, _, covers), _, addresses, same, _, _, x, w, nx) =
      let (entry, _, inside) = build-Plans id elf plan h in
      let (space, plan_kept, stack_kept, at, sp) = build_image-context id plan stack image l in
      let (i, s, g, inside1) = entry_mapped-some plan.entry plan.segments inside in
      let (reach, positive) = subst Reaches k build_stack-Reaches in
      let c : contains_page built.load built.image.context.entry ≡ true =
        rw (same, at)
          (covers i s (rw plan_kept g) plan.entry (ground (arith, inside1))
            (ground (arith, inside1))).0 in
      let d : any_holds built.image.context.stack_pointer built.stack_pages ≡ true =
        rw (same, sp, any_holds-pages stack.initial_rsp built.stack_pages, addresses, stack_kept)
          reach in
      let z : nat_eq built.image.context.stack_pointer 0 ≡ false = rw (same, sp) positive in
      rw (c, x, z, d, w, nx, from_populated) (rw (same, space, at, sp, entry) refl)
