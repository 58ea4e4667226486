-- ===== src/Arch/System/Steps.antt =====
-- The operations that change the owner of the system, kernel/src/arch/x86_64/system_runtime.rs. Entering
-- user mode does not return: `start_user` answers the launch that is entered.
use x.Base.{
  ℕ, Bool, false, not, ◌&&◌, ◌||◌, Option, none, some, is_some, ◌==◌, if◌then◌else◌, Result, ok,
  err, map_err, ok_or, refuse_if, ◌>>=◌,
}
use x.Syscall.{ProcessSyscallControl, SyscallError, invalid_arguments}
use x.Scheduler.Task.{TaskId, TaskId_Eq, ready, Priority, ExecutionHandle}
use x.Scheduler.State
use x.Scheduler.State.{Scheduler, create_user_task, next_ready, execution}
use x.Scheduler.Ops.{
  attach_execution, destroy_created, make_ready, schedule_next, terminate_current_to,
}
use x.Process.AddressSpace.{AddressSpaceId, id_eq}
use x.Process.Identity.{ProcessId, ProcessId_Eq, ProcessState_Eq, running, ProcessExecutionBinding}
use x.Process.Identity
use x.Process.Image.{ProcessImage}
use x.Process.Manager.{invalid_transition}
use x.Process.Manager.Ops
use x.Arch.Interrupted.{InterruptedState, is_user_valid}
use x.Arch.Execution.{Allocation}
use x.Arch.Registry
use x.Arch.Registry.{kernel_stack_top}
use x.Arch.UserExecution.{PreparedUserLaunch, UserExecutionBinding, new_user_binding}
use x.Arch.UserRegistry
use x.Arch.CpuLocal.{Cpu, set_current_task, set_kernel_stack_top}
use x.Arch.KernelTask.{scheduler_error, registry_error, same_task}
use x.Arch.Runtime.{task_error, request_reschedule}
use x.Arch.System.{
  SystemRuntime, SystemRuntimeError, runtime_error, user_binding, process_error,
  address_space_mismatch, no_current_process, task_binding_mismatch, scheduler_task_not_ready,
  successor_error, kernel_stack_unavailable, no_ready_task, scheduler, with_manager, with_scheduler,
  validate_transfer, select_userspace_successor, in_task_state,
}

abbrev pub Spawned : Type 0
Spawned = SystemRuntime × Result SystemRuntimeError (ProcessId × TaskId)

-- The steps that take back what was done, each where the code has it.
abbrev drop_task : SystemRuntime → TaskId → SystemRuntimeError → Spawned
drop_task s task e = (with_scheduler s (destroy_created (scheduler s) task).0, err e)

abbrev pub drop_execution : SystemRuntime → ExecutionHandle → SystemRuntime
drop_execution s handle = with_manager s (record s.runtime.manager {
  executions = (Registry.remove s.runtime.manager.executions handle).0;
})

abbrev drop_process :
    SystemRuntime → ExecutionHandle → ProcessId → TaskId → SystemRuntimeError → Spawned
drop_process s handle process task e =
    let s' = drop_execution s handle in
    drop_task (record s' { processes = (Ops.abort_ready s'.processes process).0 }) task e

-- `spawn_user_ready`, from the process that was spawned on.
unfoldable pub bind_spawned :
    SystemRuntime
    → ExecutionHandle
    → ProcessId
    → TaskId
    → AddressSpaceId
    → PreparedUserLaunch
    → Spawned
bind_spawned s handle process task address_space launch =
    elim (new_user_binding process task address_space launch) [
      | err _ ↦ drop_process s handle process task address_space_mismatch
      | ok b ↦
          let (u, inserted) = UserRegistry.insert s.userspace b in
          let s1 : SystemRuntime = record s { userspace = u } in
          elim inserted [
            | err e ↦ drop_process s1 handle process task (user_binding e)
            | ok _ ↦
                let (t, queued) = make_ready (scheduler s1) task in
                let s2 = with_scheduler s1 t in
                if queued
                then (s2, ok (process, task))
                else drop_process
                    (record s2 { userspace = (UserRegistry.remove s2.userspace task).0 }) handle
                    process task task_binding_mismatch
          ]
    ]

-- `spawn_user_ready`, from the task that was created on; `stub` is the address of the kernel stub.
unfoldable pub spawn_task :
    Allocation
    → ℕ
    → SystemRuntime
    → ProcessImage
    → TaskId
    → AddressSpaceId
    → PreparedUserLaunch
    → Spawned
spawn_task a stub s image task address_space launch =
    let (t, attached) = attach_execution (scheduler s) task in
    let s1 = with_scheduler s t in
    elim attached [
      | err e ↦ drop_task s1 task (runtime_error (task_error (scheduler_error e)))
      | ok handle ↦
          let (r, inserted) = Registry.insert a s1.runtime.manager.executions handle stub in
          let s2 = with_manager s1 (record s1.runtime.manager { executions = r }) in
          elim inserted [
            | err e ↦ drop_task s2 task (runtime_error (task_error (registry_error e)))
            | ok _ ↦
                let (m, spawned) = Ops.spawn_ready s2.processes image task handle address_space in
                let s3 : SystemRuntime = record s2 { processes = m } in
                elim spawned [
                  | err e ↦ drop_task (drop_execution s3 handle) task (process_error e)
                  | ok p ↦ bind_spawned s3 handle p.id task address_space launch
                ]
          ]
    ]

-- `none` is a panic of `create_user_task`.
unfoldable pub spawn_user_ready :
    Allocation → ℕ → SystemRuntime → ProcessImage → PreparedUserLaunch → Priority → Option Spawned
spawn_user_ready a stub s image launch priority =
    let address_space = image.address_space.id in
    if not (id_eq launch.address_space address_space)
    then some (s, err address_space_mismatch)
    else elim (create_user_task (scheduler s) priority) [
      | none ↦ none
      | some (t, task) ↦
          some (spawn_task a stub (with_scheduler s t) image task address_space launch)
    ]

-- The checks of `start_user`: the binding to be entered, and the top of its kernel stack.
unfoldable pub startable :
    SystemRuntime → ProcessId → Result SystemRuntimeError (UserExecutionBinding × ℕ)
startable s process = do
  bound ← map_err process_error (Ops.binding s.processes process)
  binding ← ok_or bound task_binding_mismatch
  user ← ok_or (UserRegistry.get s.userspace binding.task) task_binding_mismatch
  _ ←
      refuse_if
        (not (user.process == process) || not (id_eq user.address_space binding.address_space))
        task_binding_mismatch
  state ← map_err process_error (Ops.state s.processes process)
  _ ← refuse_if (not (state == Identity.ready)) (process_error invalid_transition)
  stack_top ←
      ok_or (kernel_stack_top s.runtime.manager.executions binding.task) kernel_stack_unavailable
  _ ←
      refuse_if
        (not (in_task_state (State.state (scheduler s) binding.task) ready)
          || not (same_task (next_ready (scheduler s)) (some binding.task)))
        scheduler_task_not_ready
  ok (user, stack_top)

-- The state of the owner and of the processor, and the result.
abbrev pub Outcome : Type 0 → Type 0
Outcome A = SystemRuntime × Cpu × Result SystemRuntimeError A

-- The last step of the three hand-overs: the processor and the owner name the new task.
abbrev pub entered : SystemRuntime → Cpu → ProcessId → TaskId → ℕ → SystemRuntime × Cpu
entered s cpu process task stack_top = (
  record s { current_process = some process },
  set_current_task (set_kernel_stack_top cpu stack_top) (some task),
)

abbrev pub runs_now : SystemRuntime → Option TaskId → TaskId → Bool
runs_now s next task = same_task next (some task) && same_task (scheduler s).current (some task)

unfoldable pub start_user : SystemRuntime → Cpu → ProcessId → Outcome PreparedUserLaunch
start_user s cpu process = elim (startable s process) [
  | err e ↦ (s, cpu, err e)
  | ok (user, stack_top) ↦
      let (m, started) = Ops.start s.processes process in
      let s1 : SystemRuntime = record s { pending_exit = none; processes = m } in
      elim started [
        | err e ↦ (s1, cpu, err (process_error e))
        | ok _ ↦
            let (t, decision) = schedule_next (scheduler s1) in
            let s2 = with_scheduler s1 t in
            if not (runs_now s2 decision.next user.task)
            then (s2, cpu, err task_binding_mismatch)
            else let (s3, cpu') = entered s2 cpu process user.task stack_top in
              (s3, cpu', ok user.launch)
      ]
]

-- `if transfer.resume().is_some() { self.userspace.clear_resume(task).expect(..); }`: the task has a
-- binding, so that there is no panic.
abbrev pub consume_resume : SystemRuntime → UserExecutionBinding → SystemRuntime
consume_resume s transfer = record s {
  userspace =
      if is_some transfer.resume
      then (UserRegistry.clear_resume s.userspace transfer.task).0
      else s.userspace;
}

abbrev pub is_process : Option ProcessId → ProcessId → Bool
is_process none id = false
is_process (some p) id = p == id

-- The checks of `commit_pending_exit`: the transfer, the execution that ends and the top of the kernel
-- stack of the successor.
unfoldable pub exitable :
    SystemRuntime
    → ProcessId
    → TaskId
    → Result SystemRuntimeError (UserExecutionBinding × ExecutionHandle × ℕ)
exitable s process task = do
  _ ←
      refuse_if
        (not (is_process s.current_process process)
          || not (same_task (scheduler s).current (some task)))
        task_binding_mismatch
  successor ← map_err successor_error (select_userspace_successor s (some task))
  bound ← map_err process_error (Ops.binding s.processes process)
  binding ← ok_or bound task_binding_mismatch
  _ ← refuse_if (not (binding.task == task)) task_binding_mismatch
  state ← map_err process_error (Ops.state s.processes process)
  _ ← refuse_if (not (state == running)) task_binding_mismatch
  transfer ← map_err (λ _. task_binding_mismatch) (validate_transfer successor (some task))
  handle ← ok_or (execution (scheduler s) task) task_binding_mismatch
  stack_top ←
      ok_or (kernel_stack_top s.runtime.manager.executions successor.task) kernel_stack_unavailable
  ok (transfer, handle, stack_top)

-- The changes of `commit_pending_exit` after those of the registry of processes.
unfoldable pub release_task :
    SystemRuntime
    → Cpu
    → TaskId
    → UserExecutionBinding
    → ExecutionHandle
    → ℕ
    → Outcome UserExecutionBinding
release_task s cpu task transfer handle stack_top =
    let (t, terminated) = terminate_current_to (scheduler s) transfer.task in
    let s1 = with_scheduler s t in
    elim terminated [
      | err _ ↦ (s1, cpu, err task_binding_mismatch)
      | ok _ ↦
          let (u, removed) = UserRegistry.remove s1.userspace task in
          let s2 : SystemRuntime = record s1 { userspace = u } in
          elim removed [
            | err e ↦ (s2, cpu, err (user_binding e))
            | ok _ ↦
                let s3 = consume_resume (drop_execution s2 handle) transfer in
                let (s4, cpu') = entered s3 cpu transfer.process transfer.task stack_top in
                (record s4 { pending_exit = none }, cpu', ok transfer)
          ]
    ]

-- The exit code that was asked for plays no part: `exit` records the code 0.
unfoldable pub commit_exit :
    SystemRuntime
    → Cpu
    → ProcessId
    → TaskId
    → UserExecutionBinding
    → ExecutionHandle
    → ℕ
    → Outcome UserExecutionBinding
commit_exit s cpu process task transfer handle stack_top =
    let (m1, started) = Ops.start s.processes transfer.process in
    let s1 : SystemRuntime = record s { processes = m1 } in
    elim started [
      | err e ↦ (s1, cpu, err (process_error e))
      | ok _ ↦
          let (m2, exited) = Ops.exit m1 process in
          let s2 : SystemRuntime = record s { processes = m2 } in
          elim exited [
            | err e ↦ (s2, cpu, err (process_error e))
            | ok _ ↦ release_task s2 cpu task transfer handle stack_top
          ]
    ]

-- What is done about an exit that was noted.
abbrev pub commit_noted :
    SystemRuntime → Cpu → Option (ProcessId × TaskId × ℕ) → Outcome UserExecutionBinding
commit_noted s cpu none = (s, cpu, err no_current_process)
commit_noted s cpu (some (process, task, _)) = elim (exitable s process task) [
  | err e ↦ (s, cpu, err e)
  | ok (transfer, handle, stack_top) ↦ commit_exit s cpu process task transfer handle stack_top
]

unfoldable pub commit_pending_exit : SystemRuntime → Cpu → Outcome UserExecutionBinding
commit_pending_exit s cpu = commit_noted s cpu s.pending_exit

-- The checks of a yield: the task that yields.
unfoldable pub yielding : SystemRuntime → Result SystemRuntimeError (ProcessId × TaskId)
yielding s = do
  process ← ok_or s.current_process no_current_process
  task ← ok_or (scheduler s).current no_current_process
  bound ← map_err process_error (Ops.binding s.processes process)
  binding ← ok_or bound task_binding_mismatch
  _ ← refuse_if (not (binding.task == task)) task_binding_mismatch
  state ← map_err process_error (Ops.state s.processes process)
  _ ← refuse_if (not (state == running)) task_binding_mismatch
  ok (process, task)

-- The snapshot of the task that yields is kept with its binding.
unfoldable pub keep_snapshot :
    SystemRuntime
    → TaskId
    → Option (TaskId × InterruptedState)
    → SystemRuntime × Result SystemRuntimeError (Unit {0})
keep_snapshot s task none = (s, ok tt)
keep_snapshot s task (some (captured, state)) =
    if not (captured == task) || not (is_user_valid state)
    then (s, err task_binding_mismatch)
    else let (u, installed) = UserRegistry.install_resume s.userspace task state in
      (record s { userspace = u }, map_err user_binding installed)

unfoldable pub yield_over :
    SystemRuntime
    → Cpu
    → ProcessId
    → UserExecutionBinding
    → ℕ
    → Outcome (Option UserExecutionBinding)
yield_over s cpu process transfer stack_top =
    let (m, yielded) = Ops.yield_to s.processes process transfer.process in
    let s1 : SystemRuntime = record s { processes = m } in
    elim yielded [
      | err e ↦ (s1, cpu, err (process_error e))
      | ok _ ↦
          let (t, decision) = schedule_next (scheduler s1) in
          let s2 = with_scheduler s1 t in
          if not (runs_now s2 decision.next transfer.task)
          then (s2, cpu, err task_binding_mismatch)
          else let (s3, cpu') =
              entered (consume_resume s2 transfer) cpu transfer.process transfer.task stack_top in
            (s3, cpu', ok (some transfer))
    ]

unfoldable pub commit_userspace_yield_with_snapshot :
    SystemRuntime → Cpu → Option (TaskId × InterruptedState) → Outcome (Option UserExecutionBinding)
commit_userspace_yield_with_snapshot s cpu interrupted = elim (yielding s) [
  | err e ↦ (s, cpu, err e)
  | ok (process, task) ↦ elim (select_userspace_successor s (some task)) [
    | err e ↦ elim e [
      | no_ready_task ↦ (s, cpu, ok none)
      | other ↦ (s, cpu, err (successor_error other))
    ]
    | ok successor ↦ elim (validate_transfer successor (some task)) [
      | err _ ↦ (s, cpu, err task_binding_mismatch)
      | ok transfer ↦ elim (kernel_stack_top s.runtime.manager.executions transfer.task) [
        | none ↦ (s, cpu, err kernel_stack_unavailable)
        | some stack_top ↦
            let (s1, kept) = keep_snapshot s task interrupted in
            elim kept [
              | err e ↦ (s1, cpu, err e)
              | ok _ ↦ yield_over s1 cpu process transfer stack_top
            ]
      ]
    ]
  ]
]

unfoldable pub commit_userspace_yield : SystemRuntime → Cpu → Outcome (Option UserExecutionBinding)
commit_userspace_yield s cpu = commit_userspace_yield_with_snapshot s cpu none

unfoldable pub current_user_binding : SystemRuntime → Option UserExecutionBinding
current_user_binding s = elim (scheduler s).current [
  | none ↦ none
  | some task ↦ UserRegistry.get s.userspace task
]

unfoldable pub take_pending_exit : SystemRuntime → SystemRuntime × Option (ProcessId × TaskId × ℕ)
take_pending_exit s = (record s { pending_exit = none }, s.pending_exit)

-- Each failure is the same system call error.
unfoldable pub current_binding_checked : SystemRuntime → Result SyscallError UserExecutionBinding
current_binding_checked s = do
  _ ← refuse_if (is_some s.pending_exit) invalid_arguments
  process ← ok_or s.current_process invalid_arguments
  bound ← map_err (λ _. invalid_arguments) (Ops.binding s.processes process)
  binding ← ok_or bound invalid_arguments
  task ← ok_or (scheduler s).current invalid_arguments
  state ← map_err (λ _. invalid_arguments) (Ops.state s.processes process)
  _ ← refuse_if (not (binding.task == task) || not (state == running)) invalid_arguments
  user ← ok_or (UserRegistry.get s.userspace task) invalid_arguments
  _ ←
      refuse_if
        (not (user.process == process) || not (id_eq user.address_space binding.address_space))
        invalid_arguments
  ok user

abbrev pub reschedule : SystemRuntime → SystemRuntime
reschedule s = record s { runtime = request_reschedule s.runtime }

-- The owner as the control object of system calls: an exit is only noted, and committed on the way
-- back to user mode.
unfoldable pub control : ProcessSyscallControl SystemRuntime
control = record {
  on_exit = λ s code. elim (current_binding_checked s) [
    | err e ↦ (s, err e)
    | ok user ↦
        (reschedule (record s { pending_exit = some (user.process, user.task, code) }), ok tt)
  ];
  on_yield =
      λ s. elim (current_binding_checked s) [ err e ↦ (s, err e) | ok _ ↦ (reschedule s, ok tt) ];
}
