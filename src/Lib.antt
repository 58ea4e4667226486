-- ===== src/Lib.antt =====
-- Verification of the X11-OS kernel: the scheduler, the memory layer, the process layer with its loader,
-- the system calls, and the owners of tasks and processes on x86_64.
--
-- The kernel is a Rust crate for x86_64. Its core logic is independent of the hardware: a scheduler
-- with generational task identities and three queues, a memory layer that validates ranges and hands
-- out physical frames, and a process layer that parses an image, plans and makes its mappings and
-- registers processes, which are bound to the scheduler's tasks. The x86_64 layer owns the kernel
-- executions of tasks and the userspace bindings of processes: KernelTaskManager joins the scheduler
-- with the executions, KernelRuntime adds the reschedule request and interrupted state, and SystemRuntime
-- adds processes and userspace. A system call reaches the SystemRuntime through the control object of
-- the dispatcher; an exit is noted there, and committed on the way out of the interrupt.
--
-- Which file models which part:
--   Abi                 abi/src/lib.rs
--   Scheduler/Task      kernel/src/scheduler/task.rs, and ExecutionHandle of execution.rs
--   Scheduler/RunQueue, WaitQueue, SleepQueue   run_queue.rs, wait_queue.rs, sleep_queue.rs there
--   Scheduler/State     the state, slots and task creation of kernel/src/scheduler/mod.rs
--   Scheduler/Ops       attach_execution, destroy_created, make_ready, terminate_current_to and
--                       schedule_next of the same file; Scheduler/Waiting has the rest
--   Scheduler/Execution, Reschedule   execution.rs and reschedule.rs there
--   Timer               kernel/src/timer.rs
--   Scheduler/Slots, Invariant, Preservation, Creation, Kept, Reach   proofs about them
--   Memory/Ranges, Layout, Page   region.rs, address_space.rs, user_stack.rs, page.rs of
--                       kernel/src/memory
--   Memory/Physical, Boot, Frame, User, Mapping, UserCopy   physical.rs, boot.rs, frame.rs, user.rs,
--                       page_table.rs, user_copy.rs there
--   Process/AddressSpace, Elf, LoadPlan   address_space.rs, image.rs, load_plan.rs of
--                       kernel/src/process
--   Process/Image       stack.rs, initial_context.rs and image_state.rs there
--   Process/RamdiskImage   ramdisk_image.rs there: from the bytes of a program to its image
--   Process/Identity, Lifecycle, Manager   identity.rs, state.rs and manager.rs there
--   Process/Binding     scheduler_binding.rs there, which joins the registry and the scheduler
--   Memory/Mapper       the trait PageTableMapper of kernel/src/memory/page_table.rs, and its contract
--   Process/Loader, Builder, Launch   loader.rs, address_space_builder.rs and user_launch.rs of
--                       kernel/src/process
--   Process/Populate    populate.rs, populated_address_space.rs and loaded_address_space.rs there
--   Syscall             kernel/src/syscall.rs
--   Arch/Slots, Interrupted, Context, Execution   the tables of optional entries, interrupted_state.rs
--                       and interrupt_entry.rs, context_switch.rs and activation.rs, execution.rs of
--                       kernel/src/arch/x86_64
--   Arch/UserExecution, UserRegistry   user_return.rs, user_launch.rs and user_execution.rs there
--   Arch/Registry       execution_registry.rs, preemption_plan.rs and dispatch.rs there
--   Arch/CpuLocal       cpu_local.rs there, with the cells of gdt.rs and idt.rs that change
--   Arch/KernelTask, Runtime, ProcessRuntime   kernel_task.rs, runtime.rs and process_runtime.rs there
--   Arch/System         system_runtime.rs, user_successor.rs and user_return_transfer.rs there
--   Base                names, tests and lemmas shared by all; Examples has concrete runs
--
-- How the code is read:
--   - A method that takes `&mut self` returns the new state beside its result; a queue that a method
--     borrows is returned as well. `Result` and `?` are Base's Result and its bind.
--   - Numbers are natural numbers; `checked_add` and the like compare with the largest value of the
--     width, `as u32` is a remainder, and `usize` is 64 bits wide. Clearing the low twelve bits is
--     written `a - a % 4096`, and a flag bit is tested by division.
--   - `Scheduler.tasks` is a list of optional control blocks; `task` and `task_mut` are `find`, and a
--     write through `task_mut` is `put`. The `Box` round a block is not modelled, as it has one owner.
--   - A panic is `none`: in task creation, of a generation or an index out of range. The steps of
--     Scheduler/Reach create tasks only while the table has at most `u32::MAX` slots.
--   - `partition_point` is the number of leading elements that pass, which is what it returns on a
--     slice that the test partitions; the deadline queue stays sorted.
--   - The page tables, the writer of pages, the sink of a write and the control object are states with their operations as
--     parameters; a theorem about them states the contract that it asks for.
--   - A new kernel stack, the address of an activation record and of the trampoline come from outside
--     and are the argument of the operations that allocate. An address space root is the address of
--     its frame. A transfer to user mode is the binding that is entered, as the last result of a step.
--   - A fixed array of options with a count is the list of its elements.
--
-- Bounds and fuel: the loops of the frame allocator run on fuel `length regions + 2`, as each round
-- but the last takes a region; the theorems about it show that the fuel suffices. The page loop of
-- the user-memory check runs on one unit for each 4096 bytes up to the end of the range and one more,
-- with a theorem that this is enough. The loop of the stack plan has one unit for each stack page, and
-- `register_ready` makes 256 rounds, as in the source. The write loop has one unit for each byte of
-- the slice, with a theorem that a good write succeeds. The loop over the pages of a segment runs on
-- the room that is left below 128 pages, which the source tests for in each round. The loop that
-- populates a segment has one unit for each byte, and a lemma that more units change nothing.
--
-- Not modelled: the assembly that switches contexts and enters user mode, with dispatch_once,
-- safe_reschedule_point and yield_current of the kernel runtime, which end in it; the heap, whose allocator is a third-party crate; the page-table walker, the
-- interrupt controllers, the timers and the ACPI tables of the x86_64 layer; the boot sequence.
-- `MemoryRegion` is a type of the bootloader crate of which the bounds and the kind are read.
pub mod Base
pub mod Abi
pub mod Timer
pub mod Scheduler
pub mod Memory
pub mod Syscall
pub mod Process
pub mod Arch
mod Examples
