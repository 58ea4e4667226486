-- ===== src/Process/RamdiskImage.antt =====
-- The process image built from a program in memory, kernel/src/process/ramdisk_image.rs.
use x.Base.{
  ℕ, ◌≡◌, ◌≤◌, ◌<◌, ◌∙◌, true, List, Result, ok, ◌>>=◌, map_err, Result-cases, inl, inr, arith,
}
use x.Memory.Ranges.{user_space_start, kernel_space_start}
use x.Process.AddressSpace.{AddressSpaceId, AddressSpaceSpec, new_spec}
use x.Process.Elf.{ElfError, ElfImage, parse}
use x.Process.Elf.Laws.{Parsed, parse-Parsed}
use x.Process.LoadPlan.{LoadPlan, LoadPlanError, build}
use x.Process.LoadPlan.Laws.{Plans, entry_mapped, build-Plans}
use x.Process.Image.{
  ProcessImage, ProcessImageError, StackPlanError, UserStackPlan, build_stack, build_image,
  new_context,
}

pub data RamdiskImageError : Type 0 where
  elf : ElfError → RamdiskImageError
  load_plan : LoadPlanError → RamdiskImageError
  stack : StackPlanError → RamdiskImageError
  image : ProcessImageError → RamdiskImageError

unfoldable pub build_process_image :
    List ℕ → AddressSpaceSpec → Result RamdiskImageError ProcessImage
unfolding parse build build_stack build_image
build_process_image bytes address_space = do
  parsed ← map_err elf (parse bytes)
  plan ← map_err load_plan (build address_space parsed)
  stack_plan ← map_err stack build_stack
  map_err image (build_image address_space plan stack_plan)

build_image_lem :
    (space : AddressSpaceSpec) (plan : LoadPlan) (stack_plan : UserStackPlan) (p : ProcessImage)
    → build_image space plan stack_plan ≡ ok p
    → (p.address_space ≡ space)
      × (p.load_plan ≡ plan)
      × (p.context.entry ≡ plan.entry)
      × (p.context.stack_pointer ≡ p.stack_plan.initial_rsp)
      × (user_space_start ≤ plan.entry)
      × (plan.entry < kernel_space_start)
unfolding build_image new_context
build_image_lem space plan stack_plan p h = ground arith

build_process_image-steps :
    (bytes : List ℕ) (space : AddressSpaceSpec) (p : ProcessImage)
    → build_process_image bytes space ≡ ok p
    → (parsed : ElfImage) × (plan : LoadPlan) × (stack_plan : UserStackPlan) × (parse bytes
        ≡ ok parsed)
      × (build space parsed ≡ ok plan)
      × (build_image space plan stack_plan ≡ ok p)
unfolding build_process_image
build_process_image-steps bytes space p h = elim (Result-cases (parse bytes)) [
  | inr (e, a) ↦ absurd (ground arith)
  | inl (parsed, a) ↦ elim (Result-cases (build space parsed)) [
    | inr (e, b) ↦ absurd (ground arith)
    | inl (plan, b) ↦ elim (Result-cases build_stack) [
      | inr (e, c) ↦ absurd (ground arith)
      | inl (stack_plan, c) ↦ (parsed, plan, stack_plan, a, b, ground arith)
    ]
  ]
]

-- What an image built from a program promises of its mappings and its first context.
pub record Runnable (bytes : List ℕ) (id : AddressSpaceId) (p : ProcessImage) : Type 0 where
  pub parsed : ElfImage
  pub parses : parse bytes ≡ ok parsed
  pub parsed_as : Parsed bytes parsed
  pub in_space : p.address_space ≡ new_spec id
  pub plans : Plans parsed.entry parsed.segments p.load_plan.segments
  pub starts : p.context.entry ≡ parsed.entry
  pub executable_entry : entry_mapped p.context.entry p.load_plan.segments ≡ true
  pub in_user_space : (user_space_start ≤ p.context.entry) × (p.context.entry < kernel_space_start)
  pub on_stack : p.context.stack_pointer ≡ p.stack_plan.initial_rsp

-- An image built from a program has the address space asked for. The bytes of the program are an ELF
-- file: the magic number, a 64-bit little-endian executable for x86_64, and a table of one to eight
-- program headers that lies in the file. The image maps, as a load plan does, the segments that the
-- headers of the kind PT_LOAD ask for, one for each and none for another header, every segment with the
-- flags, the file range and the range of addresses that its header says. It starts at the entry point
-- that stands at offset 24 of the file, which is in user space and in an executable mapping, and with
-- the initial stack pointer of its stack plan.
pub build_process_image-Runnable :
    (bytes : List ℕ) (id : AddressSpaceId) (p : ProcessImage)
    → build_process_image bytes (new_spec id) ≡ ok p
    → Runnable bytes id p
build_process_image-Runnable bytes id p h =
    let (parsed, plan, stack_plan, a, b, c) = build_process_image-steps bytes (new_spec id) p h in
    let (space, same, entry, sp, low, high) = build_image_lem (new_spec id) plan stack_plan p c in
    let (e, plans, mapped) = build-Plans id parsed plan b in
    record {
      parsed = parsed;
      parses = a;
      parsed_as = parse-Parsed bytes parsed a;
      in_space = space;
      plans = rw same plans;
      starts = entry ∙ e;
      executable_entry = rw (same, entry) mapped;
      in_user_space = rw entry (low, high);
      on_stack = sp;
    }
