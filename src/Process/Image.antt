-- ===== src/Process/Image.antt =====
-- The stack plan, the first user context and the validated image of a process:
-- kernel/src/process/stack.rs, kernel/src/process/initial_context.rs and
-- kernel/src/process/image_state.rs. The array of stack pages with its count is the list of the
-- pages that were set.
use x.Base.{
  ℕ, zero, suc, not, ◌||◌, Option, none, List, [], ◌∷◌, length, get_elem?, ltb, leb, nat_eq,
  if◌then◌else◌, checked_add, Result, ok, err, ok_or, map_err, refuse_if, ◌>>=◌,
}
use x.Memory.Ranges.{user_space_start, kernel_space_start}
use x.Memory.Layout.{stack_pages, user_stack_range, is_valid_user_stack_pointer}
use x.Memory.Page.{Page4K, from_start_address, page_size_4k}
use x.Process.AddressSpace.{AddressSpaceSpec}
use x.Process.LoadPlan.{LoadPlan}

pub data StackPlanError : Type 0 where
  invalid_range invalid_page : StackPlanError

pub record UserStackPlan : Type 0 where
  pub pages : List Page4K
  pub initial_rsp : ℕ

-- The loop of `UserStackPlan::build`. A range of stack_pages pages ends it within the fuel; a loop
-- that is still running then has more pages than the plan may hold.
unfoldable pub plan_pages : ℕ → ℕ → ℕ → Result StackPlanError (List Page4K)
unfolding from_start_address
plan_pages zero address end = if ltb address end then err invalid_range else ok []
plan_pages (suc fuel) address end =
    let rest = λ (next : ℕ). plan_pages fuel next end in
    if not (ltb address end) then ok [] else do
      page ← ok_or (from_start_address address) invalid_page
      next ← ok_or (checked_add address page_size_4k) invalid_range
      pages ← rest next
      ok (page ∷ pages)

-- `UserStackPlan::build`
unfoldable pub build_stack : Result StackPlanError UserStackPlan
unfolding user_stack_range plan_pages
build_stack = do
  range ← ok_or user_stack_range invalid_range
  pages ← plan_pages stack_pages range.start range.end
  _ ← refuse_if (not (nat_eq (length pages) stack_pages)) invalid_range
  ok (record { pages = pages; initial_rsp = range.end })

unfoldable pub page : UserStackPlan → ℕ → Option Page4K
page p index = if leb (length p.pages) index then none else get_elem? p.pages index

pub record InitialContext : Type 0 where
  pub entry : ℕ
  pub stack_pointer : ℕ

pub data InitialContextError : Type 0 where
  invalid_entry invalid_stack_pointer : InitialContextError

-- `InitialContext::new`
unfoldable pub new_context : ℕ → ℕ → Result InitialContextError InitialContext
unfolding is_valid_user_stack_pointer
new_context entry stack_pointer =
    if ltb entry user_space_start || leb kernel_space_start entry
    then err invalid_entry
    else if not (is_valid_user_stack_pointer stack_pointer)
    then err invalid_stack_pointer
    else ok (record { entry = entry; stack_pointer = stack_pointer })

pub record ProcessImage : Type 0 where
  pub address_space : AddressSpaceSpec
  pub load_plan : LoadPlan
  pub stack_plan : UserStackPlan
  pub context : InitialContext

pub data ProcessImageError : Type 0 where
  invalid_context : ProcessImageError

-- `ProcessImage::build`
unfoldable pub build_image :
    AddressSpaceSpec → LoadPlan → UserStackPlan → Result ProcessImageError ProcessImage
unfolding new_context
build_image address_space load_plan stack_plan = do
  context ← map_err (λ _. invalid_context) (new_context load_plan.entry stack_plan.initial_rsp)
  ok (record {
    address_space = address_space;
    load_plan = load_plan;
    stack_plan = stack_plan;
    context = context;
  })
