-- ===== src/Process/Builder.antt =====
-- The construction of a process address space, kernel/src/process/address_space_builder.rs. The array
-- of stack pages with its count is the list of the pages that were set: newest first in the loop,
-- which rolls back in that order, and in the order of the array in the result.
pub mod Laws
pub mod Whole
use x.Base.{
  ℕ, ◌-◌, Bool, true, false, not, ◌||◌, Option, none, some, List, [], ◌∷◌, length, get_elem?, leb,
  if◌then◌else◌, checked_sub, Result, ok, err,
}
use mathlib.Core.List.{reverse}
use x.Memory.Page.{Page4K, from_start_address}
use x.Memory.Mapping.{PageAccess, read_write}
use x.Memory.Mapper.{PageTableMapper}
use x.Process.AddressSpace.{AddressSpaceSpec, id_eq}
use x.Process.Image.{ProcessImage}
use x.Process.Loader.{LoadError, LoadResult, MappedPage, map_load_plan}

pub data AddressSpaceBuildError : Type 0 where
  address_space_mismatch : AddressSpaceBuildError
  image_error : LoadError → AddressSpaceBuildError
  stack_mapping_failed entry_unmapped entry_not_executable : AddressSpaceBuildError
  stack_unmapped stack_not_writable stack_is_executable : AddressSpaceBuildError
  invalid_stack_page rollback_failed : AddressSpaceBuildError

pub record MappedStackPage : Type 0 where
  pub virtual_page : Page4K
  pub physical_address : ℕ

pub record BuiltAddressSpace : Type 0 where
  pub image : ProcessImage
  pub load : LoadResult
  pub stack_pages : List MappedStackPage
  pub entry_executable : Bool
  pub stack_writable : Bool
  pub stack_executable : Bool

unfoldable pub stack_count : BuiltAddressSpace → ℕ
stack_count b = length b.stack_pages

unfoldable pub stack_page : BuiltAddressSpace → ℕ → Option MappedStackPage
unfolding stack_count
stack_page b index = if leb (stack_count b) index then none else get_elem? b.stack_pages index

-- The checks of the page of the entry, and of the page below the stack pointer.
unfoldable pub verify_entry : PageAccess → Result AddressSpaceBuildError PageAccess
verify_entry access =
    if not access.mapped || not access.user
    then err entry_unmapped
    else if not access.executable
    then err entry_not_executable
    else ok access

unfoldable pub verify_stack : PageAccess → Result AddressSpaceBuildError PageAccess
verify_stack access =
    if not access.mapped || not access.user
    then err stack_unmapped
    else if not access.writable
    then err stack_not_writable
    else if access.executable
    then err stack_is_executable
    else ok access

module _ {M : Type 0} (mapper : PageTableMapper M) where
  -- `rollback_load`, on the pages of the load from its last on.
  unfoldable pub rollback_load : List MappedPage → M → M × Result AddressSpaceBuildError (Unit {0})
  unfolding from_start_address
  rollback_load [] m = (m, ok tt)
  rollback_load (mapped ∷ rest) m = elim (from_start_address mapped.virtual_address) [
    | none ↦ (m, err rollback_failed)
    | some target ↦
        let (m', r) = mapper.unmap_page m target in
        elim r [ err _ ↦ (m', err rollback_failed) | ok _ ↦ rollback_load rest m' ]
  ]

  -- `rollback_stack`, on the stack pages from the last on.
  unfoldable pub rollback_stack :
      List MappedStackPage → M → M × Result AddressSpaceBuildError (Unit {0})
  rollback_stack [] m = (m, ok tt)
  rollback_stack (mapped ∷ rest) m =
      let (m', r) = mapper.unmap_page m mapped.virtual_page in
      elim r [ err _ ↦ (m', err rollback_failed) | ok _ ↦ rollback_stack rest m' ]

  -- `rollback_stack(..)?; rollback_load(..)?; return Err(error);`
  unfoldable pub give_up :
      {A : Type 0}
      → LoadResult
      → List MappedStackPage
      → AddressSpaceBuildError
      → M
      → M × Result AddressSpaceBuildError A
  unfolding rollback_load rollback_stack
  give_up load stack error m =
      let (m1, r) = rollback_stack stack m in
      elim r [
        | err e ↦ (m1, err e)
        | ok _ ↦
            let (m2, s) = rollback_load (reverse load.pages) m1 in
            elim s [ err e ↦ (m2, err e) | ok _ ↦ (m2, err error) ]
      ]

  -- The loop over the pages of the stack plan.
  unfoldable pub map_stack :
      LoadResult
      → List Page4K
      → List MappedStackPage
      → M
      → M × Result AddressSpaceBuildError (List MappedStackPage)
  unfolding give_up
  map_stack load [] stack m = (m, ok stack)
  map_stack load (page ∷ pages) stack m =
      let (m1, allocated) = mapper.allocate_frame m in
      elim allocated [
        | none ↦ give_up load stack stack_mapping_failed m1
        | some frame ↦
            let (m2, r) = mapper.map_page m1 page frame read_write in
            elim r [
              | err _ ↦ give_up load stack stack_mapping_failed m2
              | ok _ ↦
                  map_stack load pages
                    (record { virtual_page = page; physical_address = frame } ∷ stack) m2
            ]
      ]

  -- What follows the two loops: the checks, and the description of what was built.
  unfoldable pub finish :
      ProcessImage
      → LoadResult
      → List MappedStackPage
      → M
      → M × Result AddressSpaceBuildError BuiltAddressSpace
  unfolding give_up verify_entry verify_stack
  finish image load stack m = elim (verify_entry (mapper.page_access m load.entry)) [
    | err e ↦ give_up load stack e m
    | ok entry_access ↦ elim (checked_sub image.stack_plan.initial_rsp 1) [
      | none ↦ (m, err stack_unmapped)
      | some top ↦ elim (verify_stack (mapper.page_access m top)) [
        | err e ↦ give_up load stack e m
        | ok stack_access ↦ (
          m,
          ok (record {
            image = image;
            load = load;
            stack_pages = reverse stack;
            entry_executable = entry_access.executable;
            stack_writable = stack_access.writable;
            stack_executable = stack_access.executable;
          }),
        )
      ]
    ]
  ]

  unfoldable pub build_address_space :
      AddressSpaceSpec → ProcessImage → M → M × Result AddressSpaceBuildError BuiltAddressSpace
  unfolding id_eq
  build_address_space spec image m = elim (id_eq image.address_space.id spec.id) [
    | false ↦ (m, err address_space_mismatch)
    | true ↦
        let (m1, r) = map_load_plan mapper image.load_plan m in
        elim r [
          | err e ↦ (m1, err (image_error e))
          | ok load ↦
              let (m2, s) = map_stack load image.stack_plan.pages [] m1 in
              elim s [ err e ↦ (m2, err e) | ok stack ↦ finish image load stack m2 ]
        ]
  ]
