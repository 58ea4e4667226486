-- ===== src/Arch/System/Launch.antt =====
-- The launch that is prepared for a new process can be handed over to.
use x.Base.{◌+◌, ◌*◌, ◌%◌, ◌≤◌, ◌<◌, ◌≡◌, refl, true, false, Option, none, some, ok, arith}
use x.Memory.Ranges.{user_space_start, kernel_space_start}
use x.Memory.Layout.{is_valid_user_stack_pointer, user_stack_range}
use x.Scheduler.Task.{TaskId}
use x.Process.AddressSpace.{id_eq}
use x.Process.Identity.{ProcessId}
use x.Process.Image.{new_context}
use x.Process.Launch.{UserLaunchPlan}
use x.Arch.UserExecution.{
  AddressSpaceRoot, PreparedUserLaunch, UserExecutionBinding, prepare_launch, new_user_binding,
  from_initial,
}
use x.Arch.KernelTask.{same_task}
use x.Arch.System.{validate_transfer}

-- A launch that is prepared enters user mode, with interrupts on, at the entry of its plan, which lies in
-- user space, and on the stack pointer of its plan, which lies on a 16-byte boundary in the user stack: at
-- least 0x1000 below the kernel's half of the address space, and at most 16 pages further down. A new
-- binding to the launch is made for its own address space, and passes the check of a hand-over from any
-- other task.
pub prepare_launch-transfer :
    (root : AddressSpaceRoot) (plan : UserLaunchPlan) (launch : PreparedUserLaunch)
    (process : ProcessId) (task : TaskId) (current : Option TaskId)
    → prepare_launch root plan ≡ ok launch
    → same_task current (some task) ≡ false
    → (launch.root ≡ root)
      × (launch.frame.rip ≡ plan.entry)
      × (launch.frame.rsp ≡ plan.stack_pointer)
      × (launch.frame.cs % 4 ≡ 3)
      × (launch.frame.ss % 4 ≡ 3)
      × (launch.frame.rflags ≡ 514)
      × (user_space_start ≤ launch.frame.rip)
      × (launch.frame.rip < kernel_space_start)
      × (launch.frame.rsp % 16 ≡ 0)
      × (kernel_space_start ≤ launch.frame.rsp + (0x1000 + 16 * 4096))
      × (launch.frame.rsp + 0x1000 ≤ kernel_space_start)
      × ((b : UserExecutionBinding) × (new_user_binding process task plan.address_space launch
            ≡ ok b)
          × (validate_transfer b current ≡ ok b))
unfolding prepare_launch new_context from_initial is_valid_user_stack_pointer user_stack_range
    new_user_binding id_eq validate_transfer
prepare_launch-transfer root plan launch process task current h other =
    let same : id_eq launch.address_space plan.address_space ≡ true = ground arith in
    let cs : launch.frame.cs ≡ 27 = ground arith in
    let ss : launch.frame.ss ≡ 19 = ground arith in
    let flags : launch.frame.rflags ≡ 514 = ground arith in
    (
      ground arith,
      ground arith,
      ground arith,
      rw cs refl,
      rw ss refl,
      flags,
      ground arith,
      ground arith,
      ground arith,
      ground arith,
      ground arith,
      (
        record {
          process = process;
          task = task;
          address_space = plan.address_space;
          launch = launch;
          resume = none;
        },
        rw (same, new_user_binding) refl,
        rw (other, cs, ss, flags, validate_transfer) refl,
      ),
    )
