-- ===== src/Examples/ImageRuns.antt =====
-- A minimal program, the image built from it, and its first task.
use x.Base.{ℕ, ◌≡◌, refl, none, some, List, [], ◌∷◌, arith, ok, is_some}
use x.Memory.Layout.{default}
use x.Scheduler.Task.{Priority}
use x.Scheduler.State.{new as empty_scheduler}
use x.Scheduler.Reach.{here, Reach-Inv}
use x.Process.AddressSpace.{AddressSpaceId, new_spec}
use x.Process.Elf.{parse}
use x.Process.LoadPlan.{build}
use x.Process.Identity.{ProcessId, ready}
use x.Process.Image.{ProcessImage, build_stack, build_image}
use x.Process.RamdiskImage.{build_process_image, Runnable, build_process_image-Runnable}
use x.Process.Manager.{ProcessManager, Slot, slot, put, claim, new}
use x.Process.Manager.Ops.{register_ready, register_from}
use x.Process.Binding.{bind_and_ready}
use x.Process.Binding.Laws.{Binds, bind_and_ready-Binds}

abbrev program : List ℕ
program =
    127 ∷ 69 ∷ 76 ∷ 70 ∷ 2 ∷ 1 ∷ 0 ∷ 0 ∷ 0 ∷ 0 ∷ 0 ∷ 0 ∷ 0 ∷ 0 ∷ 0 ∷ 0 ∷ 2 ∷ 0 ∷ 62 ∷ 0 ∷ 0 ∷ 0 ∷ 0
    ∷ 0 ∷ 0 ∷ 16 ∷ 64 ∷ 0 ∷ 0 ∷ 0 ∷ 0 ∷ 0 ∷ 64 ∷ 0 ∷ 0 ∷ 0 ∷ 0 ∷ 0 ∷ 0 ∷ 0 ∷ 0 ∷ 0 ∷ 0 ∷ 0 ∷ 0 ∷ 0
    ∷ 0 ∷ 0 ∷ 0 ∷ 0 ∷ 0 ∷ 0 ∷ 0 ∷ 0 ∷ 56 ∷ 0 ∷ 1 ∷ 0 ∷ 0 ∷ 0 ∷ 0 ∷ 0 ∷ 0 ∷ 0 ∷ 1 ∷ 0 ∷ 0 ∷ 0 ∷ 5 ∷ 0
    ∷ 0 ∷ 0 ∷ 0 ∷ 0 ∷ 0 ∷ 0 ∷ 0 ∷ 0 ∷ 0 ∷ 0 ∷ 0 ∷ 16 ∷ 64 ∷ 0 ∷ 0 ∷ 0 ∷ 0 ∷ 0 ∷ 0 ∷ 0 ∷ 0 ∷ 0 ∷ 0
    ∷ 0 ∷ 0 ∷ 0 ∷ 16 ∷ 0 ∷ 0 ∷ 0 ∷ 0 ∷ 0 ∷ 0 ∷ 0 ∷ 0 ∷ 16 ∷ 0 ∷ 0 ∷ 0 ∷ 0 ∷ 0 ∷ 0 ∷ 0 ∷ 0 ∷ 0 ∷ 0
    ∷ 0 ∷ 0 ∷ 0 ∷ 0 ∷ []

abbrev pub space : AddressSpaceId
space = record { raw = 7 }

abbrev pub image : ProcessImage
image = record {
  address_space = new_spec space;
  load_plan = record {
    entry = 0x401000;
    segments =
        record { virtual_range = record { start = 0x401000; end = 0x402000 }; flags = 5 } ∷ [];
  };
  stack_plan = record {
    pages =
        record { start_address = 0xffff7ffffffef000 }
        ∷ record { start_address = 0xffff7fffffff0000 }
        ∷ record { start_address = 0xffff7fffffff1000 }
        ∷ record { start_address = 0xffff7fffffff2000 }
        ∷ record { start_address = 0xffff7fffffff3000 }
        ∷ record { start_address = 0xffff7fffffff4000 }
        ∷ record { start_address = 0xffff7fffffff5000 }
        ∷ record { start_address = 0xffff7fffffff6000 }
        ∷ record { start_address = 0xffff7fffffff7000 }
        ∷ record { start_address = 0xffff7fffffff8000 }
        ∷ record { start_address = 0xffff7fffffff9000 }
        ∷ record { start_address = 0xffff7fffffffa000 }
        ∷ record { start_address = 0xffff7fffffffb000 }
        ∷ record { start_address = 0xffff7fffffffc000 }
        ∷ record { start_address = 0xffff7fffffffd000 }
        ∷ record { start_address = 0xffff7fffffffe000 }
        ∷ [];
    initial_rsp = 0xffff7ffffffff000;
  };
  context = record { entry = 0x401000; stack_pointer = 0xffff7ffffffff000 };
}

image_built : build_process_image program (new_spec space) ≡ ok image
unfolding build_process_image parse build build_stack build_image new_spec default
image_built = refl

build_process_image-Runnable_example : Runnable program space image
build_process_image-Runnable_example = build_process_image-Runnable program space image image_built

abbrev registered : ProcessManager
registered = (register_ready new image).0

abbrev process : ProcessId
process = record { index = 0; generation = 1 }

abbrev occupied : Slot
occupied = record {
  generation = 1;
  image = some image;
  state = some ready;
  binding = none;
  exit_code = none;
}

found : slot registered process ≡ ok occupied
unfolding register_ready register_from claim put slot is_some
found = refl

abbrev priority : Priority
priority = record { value = 128 }

bind_and_ready-Binds_example :
    Binds registered empty_scheduler process image
      (bind_and_ready registered empty_scheduler process priority)
bind_and_ready-Binds_example =
    bind_and_ready-Binds registered empty_scheduler process priority occupied image (Reach-Inv here)
      (unfold empty_scheduler in omega arith) found refl refl
