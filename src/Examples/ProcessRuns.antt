-- ===== src/Examples/ProcessRuns.antt =====
-- An image of one executable segment, and a registry with processes of that image.
use x.Base.{◌≡◌, ◌⊎◌, refl, true, false, some, [], ◌∷◌, ok, err, is_some}
use x.Memory.Ranges.{virt_contains, virt_range, is_user}
use x.Memory.Layout.{default}
use x.Scheduler.Task.{TaskId, for_task}
use x.Process.AddressSpace.{
  AddressSpaceId, id_eq, new_spec, validate_user_range, validate_image_range,
}
use x.Process.Elf.{LoadSegment, ElfImage, executable, writable, segment_count}
use x.Process.LoadPlan.{LoadPlan, build, map_span, plan_segment, plan_segments, any_overlap}
use x.Process.LoadPlan.Laws.{Plans, entry_mapped, build-Plans}
use x.Process.Identity.{ProcessId, new_binding}
use x.Process.Image.{ProcessImage}
use x.Process.Manager.{
  ProcessManager, ProcessManagerError, invalid_process, binding_mismatch, ReapedProcess, slot, put,
  claim, new,
}
use x.Process.Manager.Ops.{
  register_from, register_ready, spawn_ready, bind_registered, attach_execution, bindable, start,
  request_exit, reap, reapable, yield_to, contains,
}
use x.Process.Manager.Slots.{IsValid}
use x.Process.Manager.Yield.Effect.{HandsOver, yield_to-HandsOver}
use x.Process.Manager.Spawn.{spawn_ready-RollsBack}
use x.Process.Manager.Reach.{
  Steps, stay, step, spawns, starts, requests_exit, registers, Steps-IsValid, reap-Stale,
}

abbrev space : AddressSpaceId
space = record { raw = 7 }

abbrev text : LoadSegment
text = record {
  virtual_range = record { start = 0x401000; end = 0x401010 };
  flags = 5;
  file_offset = 0;
  file_size = 0;
  memory_size = 16;
}

abbrev elf : ElfImage
elf = record { bytes = []; entry = 0x401000; segments = text ∷ [] }

abbrev plan : LoadPlan
plan = record {
  entry = 0x401000;
  segments = record { virtual_range = record { start = 0x401000; end = 0x402000 }; flags = 5 } ∷ [];
}

plan_built : build (new_spec space) elf ≡ ok plan
unfolding build plan_segments plan_segment map_span virt_range validate_image_range
    validate_user_range is_user new_spec default writable executable any_overlap segment_count
    virt_contains
plan_built = refl

build-Plans_example :
    (plan.entry ≡ elf.entry)
    × Plans elf.entry elf.segments plan.segments
    × (entry_mapped plan.entry plan.segments ≡ true)
build-Plans_example = build-Plans space elf plan plan_built

abbrev image : ProcessImage
image = record {
  address_space = new_spec space;
  load_plan = plan;
  stack_plan = record { pages = []; initial_rsp = 0xffff7fffffff0000 };
  context = record { entry = 0x401000; stack_pointer = 0xffff7fffffff0000 };
}

abbrev task : TaskId
task = record { index = 3; generation = 1 }

abbrev process : ProcessId
process = record { index = 0; generation = 1 }

abbrev other : ProcessId
other = record { index = 1; generation = 1 }

abbrev spawned : ProcessManager
spawned = (spawn_ready new image task (for_task task) space).0

abbrev started : ProcessManager
started = (start spawned process).0

abbrev ended : ProcessManager
ended = (request_exit started process 42).0

abbrev reaped : ProcessManager
reaped = (reap ended process).0

abbrev replaced : ProcessManager
replaced = (register_ready reaped image).0

ended-Steps : Steps new ended
ended-Steps =
    step
      (step (step (stay new) (spawns new image task (for_task task) space))
        (starts spawned process))
      (requests_exit started process 42)

Steps-IsValid_example : IsValid ended
Steps-IsValid_example = Steps-IsValid ended ended-Steps

abbrev record_of_process : ReapedProcess
record_of_process = record {
  id = process;
  image = image;
  binding =
      some (record {
        process = process;
        task = task;
        execution = for_task task;
        address_space = space;
      });
  exit_code = 42;
}

reap_ok : (reap ended process).1 ≡ ok record_of_process
unfolding spawn_ready register_ready register_from claim put bind_registered attach_execution
    bindable slot new_binding id_eq start request_exit reap reapable is_some new_spec
reap_ok = refl

reap-Stale_example :
    (slot replaced process ≡ err invalid_process) × (contains replaced process ≡ false)
reap-Stale_example =
    reap-Stale ended replaced process record_of_process ended-Steps reap_ok
      (step (stay reaped) (registers reaped image))

yield_to-HandsOver_example :
    ((e : ProcessManagerError) × (yield_to
          (spawn_ready started image task (for_task task) space).0
          process
          other
        ≡ ((spawn_ready started image task (for_task task) space).0, err e)))
    ⊎ (((yield_to (spawn_ready started image task (for_task task) space).0 process other).1 ≡ ok tt)
        × HandsOver
            (spawn_ready started image task (for_task task) space).0
            (yield_to (spawn_ready started image task (for_task task) space).0 process other).0
            process
            other)
yield_to-HandsOver_example =
    yield_to-HandsOver (spawn_ready started image task (for_task task) space).0 process other

abbrev elsewhere : AddressSpaceId
elsewhere = record { raw = 8 }

mismatch : (spawn_ready new image task (for_task task) elsewhere).1 ≡ err binding_mismatch
unfolding spawn_ready register_ready register_from claim put bind_registered attach_execution
    bindable slot new_binding id_eq is_some new_spec
mismatch = refl

spawn_ready-RollsBack_example :
    slot (spawn_ready new image task (for_task task) elsewhere).0 process ≡ slot new process
spawn_ready-RollsBack_example =
    spawn_ready-RollsBack new image task (for_task task) elsewhere binding_mismatch process mismatch
