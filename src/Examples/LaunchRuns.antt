-- ===== src/Examples/LaunchRuns.antt =====
-- A mapper on a table, and the address space of the minimal program from its image to its launch.
use x.Base.{
  ℕ, ◌+◌, ◌≡◌, ◌⊎◌, inl, inr, refl, Bool, true, false, none, some, [], ◌∷◌, Option-cases, arith,
  Result, ok, err,
}
use x.Memory.Page.{page_base, from_start_address}
use x.Memory.Mapping.{unmapped, already_mapped, not_mapped}
use x.Memory.Mapper.{PageTableMapper, PageTable, Lawful, put, clear}
use x.Memory.Layout.{default}
use x.Process.AddressSpace.{new_spec, id_eq}
use x.Process.Elf.{ElfImage, segment_count}
use x.Process.LoadPlan.{build, map_span, plan_segment, plan_segments, any_overlap}
use x.Process.Image.{build_stack, build_image}
use x.Process.Loader.{
  LoadError, LoadResult, map_load_plan, map_segments, map_pages, map_next, flags_from_elf,
}
use x.Process.Loader.Pages.{Loads}
use x.Process.Loader.Laws.{map_load_plan-Loads}
use x.Process.Builder.{
  AddressSpaceBuildError, BuiltAddressSpace, build_address_space, map_stack, finish, verify_entry,
  verify_stack,
}
use x.Process.Builder.Whole.{Builds, build-Separated, build_address_space-elf}
use x.Process.Launch.{from_populated}
use x.Process.Launch.Laws.{from_populated-built}
use x.Examples.ImageRuns.{space, image}

record Machine : Type 0 where
  table : PageTable
  next : ℕ

abbrev mapper : PageTableMapper Machine
mapper = record {
  page_access = λ m a. elim (m.table (page_base a)) [
    | none ↦ unmapped
    | some (frame, f) ↦ record {
      mapped = true;
      user = true;
      readable = f.readable;
      writable = f.writable;
      executable = f.executable;
    }
  ];
  allocate_frame = λ m. (record m { next = m.next + 4096 }, some m.next);
  map_page = λ m p frame flags. elim (m.table p.start_address) [
    | some _ ↦ (m, err already_mapped)
    | none ↦ (record m { table = put m.table p.start_address (frame, flags) }, ok tt)
  ];
  unmap_page = λ m p. elim (m.table p.start_address) [
    | none ↦ (m, err not_mapped)
    | some (frame, _) ↦ (record m { table = clear m.table p.start_address }, ok frame)
  ];
}

abbrev table_of : Machine → PageTable
table_of m = m.table

mapper-Lawful : Lawful mapper table_of
mapper-Lawful = record {
  allocate_keeps = λ m. refl;
  map_ok = λ m p frame flags h. elim (Option-cases (m.table p.start_address)) [
    | inl free ↦ (free, rw free refl)
    | inr (x, taken) ↦ absurd (ground arith)
  ];
  map_err = λ m p frame flags e h. elim (Option-cases (m.table p.start_address)) [
    | inl free ↦ absurd (ground arith)
    | inr (x, taken) ↦ rw taken refl
  ];
  unmap_ok = λ m p frame flags h. (rw h refl, rw h refl);
}

-- Nothing is mapped, and frames are given from 2 MiB on.
abbrev machine : Machine
machine = record { table = λ a. none; next = 0x200000 }

abbrev elf : ElfImage
elf = record {
  bytes = [];
  entry = 0x401000;
  segments =
      record {
        virtual_range = record { start = 0x401000; end = 0x401010 };
        flags = 5;
        file_offset = 0;
        file_size = 0;
        memory_size = 16;
      }
      ∷ [];
}

planned : build (new_spec space) elf ≡ ok image.load_plan
unfolding build new_spec default plan_segments plan_segment map_span any_overlap segment_count
planned = refl

stacked : build_stack ≡ ok image.stack_plan
unfolding build_stack
stacked = refl

imaged : build_image (new_spec space) image.load_plan image.stack_plan ≡ ok image
unfolding build_image new_spec
imaged = refl

map_load_plan-Loads_example :
    ((m' : Machine) × (e : LoadError) × (map_load_plan mapper image.load_plan machine ≡ (m', err e))
      × (table_of m' ≡ table_of machine))
    ⊎ ((m' : Machine) × (load : LoadResult) × (map_load_plan mapper image.load_plan machine
          ≡ (m', ok load))
        × Loads image.load_plan (table_of machine) load (table_of m'))
map_load_plan-Loads_example =
    map_load_plan-Loads mapper table_of mapper-Lawful image.load_plan machine
      (build-Separated space elf image.load_plan planned)

build_address_space-elf_example :
    ((m' : Machine) × (e : AddressSpaceBuildError) × (build_address_space mapper
          (new_spec space)
          image
          machine
        ≡ (m', err e))
      × (table_of m' ≡ table_of machine))
    ⊎ ((m' : Machine) × (built : BuiltAddressSpace) × (build_address_space mapper
            (new_spec space)
            image
            machine
          ≡ (m', ok built))
        × Builds mapper table_of mapper-Lawful image machine built m')
build_address_space-elf_example =
    build_address_space-elf mapper table_of mapper-Lawful space elf image.load_plan image.stack_plan
      image machine planned imaged

-- The construction succeeds.
abbrev succeeds : {E A : Type 0} → Result E A → Bool
succeeds (ok a) = true
succeeds (err e) = false

built_ok : succeeds (build_address_space mapper (new_spec space) image machine).1 ≡ true
unfolding build_address_space id_eq map_load_plan map_segments map_pages map_next flags_from_elf
    map_stack finish verify_entry verify_stack from_start_address new_spec put
built_ok = refl

-- What was built: the construction succeeds, so that the other outcome is out.
built_run :
    (m' : Machine) × (built : BuiltAddressSpace) × Builds mapper table_of mapper-Lawful image
      machine built m'
built_run = elim build_address_space-elf_example [
  | inl (m', e, failed, _) ↦ absurd (ground (arith, built_ok))
  | inr (m', built, _, builds) ↦ (m', built, builds)
]

from_populated-built_example :
    from_populated (record { built = built_run.1 })
    ≡ ok (record {
      address_space = space;
      entry = 0x401000;
      stack_pointer = image.stack_plan.initial_rsp;
    })
from_populated-built_example =
    from_populated-built mapper table_of mapper-Lawful space elf image.load_plan image.stack_plan
      image machine built_run.0 built_run.1 planned stacked imaged built_run.2
