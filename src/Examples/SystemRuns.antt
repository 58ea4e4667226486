-- ===== src/Examples/SystemRuns.antt =====
-- A spawned kernel task, and two userspace processes of which the first has asked for its exit.
use x.Base.{
  ◌+◌, ◌*◌, ◌%◌, ◌≤◌, ◌<◌, ◌≡◌, ◌⊎◌, refl, true, false, none, some, [], ◌∷◌, arith, contains, ok,
  err, is_some,
}
use x.Syscall.{SyscallError}
use x.Memory.Ranges.{user_space_start, kernel_space_start}
use x.Memory.Layout.{is_valid_user_stack_pointer, user_stack_range}
use x.Scheduler.Task.{
  TaskId, Priority, for_task, task_id_eq, running, new_userspace, attach, transition, userspace,
}
use x.Scheduler.RunQueue
use x.Scheduler.State
use x.Scheduler.State.{
  Scheduler, next_ready, task_kind, new as empty_scheduler, task, find, put as put_task, change,
  execution, create_task_with_kind, free_slot, new_task,
}
use x.Scheduler.Ops.{
  attach_execution, make_ready, push_ready, schedule_next, requeue, alone, switch_next,
}
use x.Scheduler.Invariant.{Inv, CurrentRuns, in_state}
use x.Scheduler.Reach.{Reach, here, next, creates, attaches, readies, schedules, Reach-Inv}
use x.Process.Identity.{ProcessId, ProcessExecutionBinding, new_binding, exited}
use x.Process.Identity
use x.Process.Image.{new_context}
use x.Process.AddressSpace.{id_eq, new_spec}
use x.Process.Launch.{UserLaunchPlan}
use x.Process.Manager.{ProcessManager}
use x.Process.Manager
use x.Process.Manager.Ops
use x.Arch.Execution.{Allocation}
use x.Arch.Registry
use x.Arch.UserExecution.{
  AddressSpaceRoot, PreparedUserLaunch, UserExecutionBinding, prepare_launch, new_user_binding,
  from_initial,
}
use x.Arch.UserRegistry
use x.Arch.CpuLocal
use x.Arch.CpuLocal.{Cpu}
use x.Arch.KernelTask
use x.Arch.KernelTask.{KernelTaskManager, same_task, spawn}
use x.Arch.KernelTask.Laws.{Owned, Spawns, spawn-Spawns}
use x.Arch.Runtime
use x.Arch.Runtime.{KernelRuntime}
use x.Arch.ProcessRuntime.{
  ProcessRuntimeOwner, task_binding_mismatch, running_binding, exit_current,
}
use x.Arch.ProcessRuntime.Laws.{exit_current-Ends}
use x.Arch.System.{
  SystemRuntime, SystemRuntimeError, scheduler, validate_transfer, select_userspace_successor,
  successor_binding,
}
use x.Arch.System.Steps.{exitable, commit_pending_exit, current_binding_checked, control}
use x.Arch.System.Commit.{Ended}
use x.Arch.System.Whole.{commit_pending_exit-Ended, control_lem}
use x.Arch.System.Launch.{prepare_launch-transfer}
use x.Examples.ImageRuns.{space, image}

abbrev priority : Priority
priority = record { value = 128 }

abbrev plan : UserLaunchPlan
plan = record { address_space = space; entry = 0x401000; stack_pointer = 0xffff7ffffffff000 }

abbrev root : AddressSpaceRoot
root = record { physical_address = 0x12345000 }

abbrev launch : PreparedUserLaunch
launch = record {
  address_space = space;
  root = root;
  frame = record { rip = 0x401000; cs = 27; rflags = 514; rsp = 0xffff7ffffffff000; ss = 19 };
}

prepared : prepare_launch root plan ≡ ok launch
unfolding prepare_launch new_context is_valid_user_stack_pointer user_stack_range from_initial
prepared = refl

abbrev first_process : ProcessId
first_process = record { index = 0; generation = 1 }

abbrev second_process : ProcessId
second_process = record { index = 1; generation = 1 }

abbrev first : TaskId
first = record { index = 0; generation = 1 }

abbrev second : TaskId
second = record { index = 1; generation = 1 }

prepare_launch-transfer_example :
    (launch.root ≡ root)
    × (launch.frame.rip ≡ plan.entry)
    × (launch.frame.rsp ≡ plan.stack_pointer)
    × (launch.frame.cs % 4 ≡ 3)
    × (launch.frame.ss % 4 ≡ 3)
    × (launch.frame.rflags ≡ 514)
    × (user_space_start ≤ launch.frame.rip)
    × (launch.frame.rip < kernel_space_start)
    × (launch.frame.rsp % 16 ≡ 0)
    × (kernel_space_start ≤ launch.frame.rsp + (0x1000 + 16 * 4096))
    × (launch.frame.rsp + 0x1000 ≤ kernel_space_start)
    × ((b : UserExecutionBinding) × (new_user_binding first_process first plan.address_space launch
          ≡ ok b)
        × (validate_transfer b none ≡ ok b))
prepare_launch-transfer_example =
    prepare_launch-transfer root plan launch first_process first none prepared refl

-- Memory for a stack at 1 MiB.
abbrev memory : Allocation
memory = record { stack = some 0x100000; activation = 0x8000; trampoline = 0x1000 }

empty-Owned : Owned KernelTask.new
unfolding KernelTask.new Registry.get
empty-Owned = record { sound = Reach-Inv here; unique = tt; live = λ j h. refl }

spawn-Spawns_example : Spawns KernelTask.new (spawn memory KernelTask.new priority 0x2000)
spawn-Spawns_example =
    spawn-Spawns memory KernelTask.new priority 0x2000 empty-Owned
      (unfold KernelTask.new empty_scheduler in omega arith)
      (0x100000, refl, omega arith, λ e. omega arith)

abbrev one : Scheduler
one = record {
  tasks = some (new_userspace first priority) ∷ [];
  generations = 1 ∷ [];
  ready = RunQueue.new;
  current = none;
}

abbrev two : Scheduler
two = record {
  tasks = some (new_userspace first priority) ∷ some (new_userspace second priority) ∷ [];
  generations = 1 ∷ 1 ∷ [];
  ready = RunQueue.new;
  current = none;
}

create_first : create_task_with_kind empty_scheduler priority userspace ≡ some (one, first)
unfolding create_task_with_kind empty_scheduler free_slot new_task
create_first = refl

create_second : create_task_with_kind one priority userspace ≡ some (two, second)
unfolding create_task_with_kind free_slot new_task
create_second = refl

abbrev attached : Scheduler
attached = (attach_execution (attach_execution two first).0 second).0

abbrev queued : Scheduler
queued = (make_ready (make_ready attached first).0 second).0

abbrev dispatched : Scheduler
dispatched = (schedule_next queued).0

dispatched-Inv : Inv dispatched
unfolding empty_scheduler
dispatched-Inv =
    let two_tasks : Reach empty_scheduler two =
      next
        (next here
          (creates empty_scheduler priority userspace one first (omega arith) create_first))
        (creates one priority userspace two second (omega arith) create_second) in
    let bound : Reach empty_scheduler attached =
      next (next two_tasks (attaches two first)) (attaches (attach_execution two first).0 second) in
    let ready : Reach empty_scheduler queued =
      next (next bound (readies attached first)) (readies (make_ready attached first).0 second) in
    Reach-Inv (next ready (schedules queued))

dispatched_lem :
    (dispatched.current ≡ some first)
    × (in_state running (task dispatched first) ≡ true)
    × (execution dispatched first ≡ some (for_task first))
unfolding schedule_next requeue alone switch_next make_ready attach_execution change push_ready find
    put_task transition attach execution RunQueue.has RunQueue.push RunQueue.new contains task_id_eq
    new_userspace
dispatched_lem = (refl, refl, refl)

dispatched-CurrentRuns : CurrentRuns dispatched
dispatched-CurrentRuns id e =
    let (now, runs, _) = dispatched_lem in
    let same : first ≡ id = ground (arith, now) in rw (← same) runs

abbrev waiting : ProcessManager
waiting =
    (Ops.spawn_ready (Ops.spawn_ready Manager.new image first (for_task first) space).0 image second
      (for_task second) space).0

abbrev processes : ProcessManager
processes = (Ops.start waiting first_process).0

abbrev owner : ProcessRuntimeOwner
owner = record {
  processes = processes;
  runtime = record Runtime.new { manager = record KernelTask.new { scheduler = dispatched } };
  current_process = some first_process;
}

abbrev binding : ProcessExecutionBinding
binding = record {
  process = first_process;
  task = first;
  execution = for_task first;
  address_space = space;
}

owner_binding : running_binding owner first_process ≡ ok binding
unfolding running_binding Runtime.new KernelTask.new Ops.spawn_ready Ops.start Ops.binding
    Ops.register_from is_some new_spec schedule_next make_ready contains attach_execution task_id_eq
    new_userspace attach RunQueue.new Ops.state
owner_binding = refl

owner-Owned : Owned owner.runtime.manager
unfolding Runtime.new KernelTask.new Registry.get
owner-Owned = record { sound = dispatched-Inv; unique = tt; live = λ j h. refl }

-- The task of the process has no execution in the kernel's registry.
exit_current-Ends_example :
    let (o', r) = exit_current owner 5 in
    (r ≡ err task_binding_mismatch)
    × (o'.current_process ≡ some first_process)
    × (Ops.state o'.processes first_process ≡ ok exited)
    × (task o'.runtime.manager.scheduler first ≡ none)
unfolding Runtime.new KernelTask.new Registry.contains is_some
exit_current-Ends_example =
    let (_, runs, has_execution) = dispatched_lem in
    exit_current-Ends owner first_process binding 5 owner-Owned refl owner_binding runs
      has_execution

abbrev user_binding : ProcessId → TaskId → UserExecutionBinding
user_binding process id = record {
  process = process;
  task = id;
  address_space = space;
  launch = launch;
  resume = none;
}

abbrev kernel_manager : KernelTaskManager
kernel_manager = record KernelTask.new {
  scheduler = dispatched;
  executions =
      (Registry.insert memory (Registry.insert memory Registry.new (for_task first) 0x2000).0
        (for_task second) 0x2000).0;
}

-- The first process has asked for an exit with the code 7.
abbrev system : SystemRuntime
system = record {
  processes = processes;
  runtime = record Runtime.new { manager = kernel_manager };
  userspace = record {
    entries =
        some (user_binding first_process first) ∷ some (user_binding second_process second) ∷ [];
  };
  current_process = some first_process;
  pending_exit = some (first_process, first, 7);
}

abbrev cpu : Cpu
cpu = record {
  local = record CpuLocal.new { current_task = some first };
  kernel_stack_top = 0x110000;
  timer_pending = false;
  timer_ticks = 0;
}

commit_pending_exit-Ended_example :
    ((e : SystemRuntimeError) × (commit_pending_exit system cpu ≡ (system, cpu, err e)))
    ⊎ ((s' : SystemRuntime) × (cpu' : Cpu) × (t : UserExecutionBinding) × (commit_pending_exit
            system cpu
          ≡ (s', cpu', ok t))
        × Ended system first_process t s' cpu')
unfolding UserRegistry.get task_id_eq Runtime.new
commit_pending_exit-Ended_example =
    commit_pending_exit-Ended system cpu first_process first 7 (user_binding first_process first)
      refl dispatched-Inv dispatched-CurrentRuns refl

-- The exit of the example succeeds.
exit_is_possible :
    exitable system first_process first
    ≡ ok (user_binding second_process second, for_task first, 0x108000)
unfolding exitable Identity.process_id_eq schedule_next make_ready contains attach_execution
    task_id_eq new_userspace attach RunQueue.new select_userspace_successor next_ready task_kind
    State.state successor_binding UserRegistry.get Ops.binding Ops.start Ops.spawn_ready
    Ops.register_from new_spec Registry.kernel_stack_top validate_transfer is_some id_eq Ops.state
    Runtime.new KernelTask.new execution Registry.insert
exit_is_possible = refl

control_lem_example :
    let (s1, r1) = control.on_exit system 9 in
    let (s2, r2) = control.on_yield system in
    ((user : UserExecutionBinding) × (current_binding_checked system ≡ ok user)
      × (system.pending_exit ≡ none)
      × (system.current_process ≡ some user.process)
      × ((scheduler system).current ≡ some user.task)
      × (r1 ≡ ok tt)
      × (s1.pending_exit ≡ some (user.process, user.task, 9))
      × (s1.runtime.reschedule.pending ≡ true)
      × (r2 ≡ ok tt)
      × (s2 ≡ record system { runtime = s1.runtime }))
    ⊎ ((e : SyscallError) × (s1 ≡ system) × (r1 ≡ err e) × (s2 ≡ system) × (r2 ≡ err e))
control_lem_example = control_lem system 9
