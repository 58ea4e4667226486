-- ===== src/Process/Launch.antt =====
-- The launch contract of a populated process, kernel/src/process/user_launch.rs, on the populated
-- address space of kernel/src/process/populated_address_space.rs.
pub mod Laws
use x.Base.{
  ℕ, ◌+◌, ◌-◌, ◌≤◌, ◌<◌, ◌≡◌, Bool, true, false, not, ◌&&◌, ◌||◌, Option, none, some, List, [], ◌∷◌,
  nat_eq, ltb, leb, if◌then◌else◌, u64_max, checked_add, Result, ok, err, refuse_if, ◌>>=◌, arith,
}
use x.Memory.Page.{Page4K, end_address, page_size_4k}
use x.Process.AddressSpace.{AddressSpaceId}
use x.Process.Loader.{contains_page}
use x.Process.Builder.{MappedStackPage, BuiltAddressSpace}

pub record PopulatedAddressSpace : Type 0 where
  pub built : BuiltAddressSpace

pub data UserLaunchError : Type 0 where
  entry_outside_image entry_not_executable : UserLaunchError
  stack_outside_image stack_not_writable stack_is_executable : UserLaunchError

pub record UserLaunchPlan : Type 0 where
  pub address_space : AddressSpaceId
  pub entry : ℕ
  pub stack_pointer : ℕ

-- The test of one stack page: the stack pointer lies in it, or is its end.
unfoldable pub page_holds : ℕ → MappedStackPage → Bool
unfolding end_address
page_holds stack_pointer p =
    let start = p.virtual_page.start_address in
    let end : ℕ = elim (end_address p.virtual_page) [ none ↦ u64_max | some e ↦ e ] in
    ltb start stack_pointer && leb stack_pointer end && nat_eq (end - start) page_size_4k

unfoldable pub any_holds : ℕ → List MappedStackPage → Bool
unfolding page_holds
any_holds stack_pointer [] = false
any_holds stack_pointer (p ∷ ps) = page_holds stack_pointer p || any_holds stack_pointer ps

-- `UserLaunchPlan::from_populated`
unfoldable pub from_populated : PopulatedAddressSpace → Result UserLaunchError UserLaunchPlan
unfolding any_holds contains_page
from_populated p = do
  let context = p.built.image.context
  _ ← refuse_if (not (contains_page p.built.load context.entry)) entry_outside_image
  _ ← refuse_if (not p.built.entry_executable) entry_not_executable
  _ ←
      refuse_if
        (not (
          not (nat_eq context.stack_pointer 0)
          && any_holds context.stack_pointer p.built.stack_pages))
        stack_outside_image
  _ ← refuse_if (not p.built.stack_writable) stack_not_writable
  _ ← refuse_if p.built.stack_executable stack_is_executable
  ok (record {
    address_space = p.built.image.address_space.id;
    entry = context.entry;
    stack_pointer = context.stack_pointer;
  })
