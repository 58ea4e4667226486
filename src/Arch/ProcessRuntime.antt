-- ===== src/Arch/ProcessRuntime.antt =====
-- The bridge between processes and the kernel's runtime, kernel/src/arch/x86_64/process_runtime.rs. The
-- owner borrows the registry of processes and the runtime; it is the three of them with the current
-- process.
pub mod Laws
use x.Base.{
  ℕ, Bool, true, false, not, Option, none, some, ◌==◌, if◌then◌else◌, Result, ok, err, map_err,
  ok_or, refuse_if, ◌>>=◌,
}
use x.Syscall
use x.Syscall.{ProcessSyscallControl}
use x.Scheduler.Task.{TaskId, TaskId_Eq, Priority}
use x.Scheduler.State.{Scheduler, SchedulerError, create_user_task}
use x.Scheduler.Ops.{attach_execution, destroy_created, make_ready}
use x.Process.AddressSpace.{AddressSpaceId, id_eq}
use x.Process.Identity.{ProcessId, ProcessState, ProcessState_Eq, running, ProcessExecutionBinding}
use x.Process.Image.{ProcessImage}
use x.Process.Manager.{ProcessManager, ProcessManagerError, SpawnedProcess}
use x.Process.Manager.Ops
use x.Arch.UserExecution.{PreparedUserLaunch, UserExecutionBinding, new_user_binding}
use x.Arch.KernelTask
use x.Arch.Runtime.{KernelRuntime, RuntimeError, request_reschedule}

pub data ProcessRuntimeError : Type 0 where
  no_current_process : ProcessRuntimeError
  process_error : ProcessManagerError → ProcessRuntimeError
  runtime_error : RuntimeError → ProcessRuntimeError
  task_binding_mismatch process_not_running : ProcessRuntimeError

pub data UserSpawnError : Type 0 where
  address_space_mismatch : UserSpawnError
  process_error : ProcessManagerError → UserSpawnError
  scheduler_error : SchedulerError → UserSpawnError
  ready_queue_rejected : UserSpawnError

abbrev pub Spawned : Type 0
Spawned =
    ProcessManager × Scheduler × Result UserSpawnError (ProcessId × TaskId × UserExecutionBinding)

-- `let _ = scheduler.destroy_created(task); return Err(error);`, and the same after `abort_ready`.
abbrev drop_task : ProcessManager → Scheduler → TaskId → UserSpawnError → Spawned
drop_task m s task e = (m, (destroy_created s task).0, err e)

abbrev drop_process : ProcessManager → Scheduler → ProcessId → TaskId → UserSpawnError → Spawned
drop_process m s process task e = drop_task (Ops.abort_ready m process).0 s task e

-- `spawn_user_ready`, from the process that was spawned on.
unfoldable pub launch_spawned :
    ProcessManager → Scheduler → ProcessId → TaskId → AddressSpaceId → PreparedUserLaunch → Spawned
launch_spawned m s process task address_space launch =
    elim (new_user_binding process task address_space launch) [
      | err _ ↦ drop_process m s process task address_space_mismatch
      | ok b ↦
          let (s', queued) = make_ready s task in
          if not queued
          then drop_process m s' process task ready_queue_rejected
          else (m, s', ok (process, task, b))
    ]

-- `spawn_user_ready`, from the task that was created on.
unfoldable pub spawn_user_task :
    ProcessManager
    → Scheduler
    → ProcessImage
    → TaskId
    → AddressSpaceId
    → PreparedUserLaunch
    → Spawned
spawn_user_task m s image task address_space launch =
    let (s1, attached) = attach_execution s task in
    elim attached [
      | err e ↦ drop_task m s1 task (scheduler_error e)
      | ok execution ↦
          let (m1, spawned) = Ops.spawn_ready m image task execution address_space in
          elim spawned [
            | err e ↦ drop_task m1 s1 task (process_error e)
            | ok p ↦ launch_spawned m1 s1 p.id task address_space launch
          ]
    ]

-- `none` is a panic of `create_user_task`.
unfoldable pub spawn_user_ready :
    ProcessManager → Scheduler → ProcessImage → PreparedUserLaunch → Priority → Option Spawned
spawn_user_ready m s image launch priority =
    let address_space = image.address_space.id in
    if not (id_eq launch.address_space address_space)
    then some (m, s, err address_space_mismatch)
    else elim (create_user_task s priority) [
      | none ↦ none
      | some (s', task) ↦ some (spawn_user_task m s' image task address_space launch)
    ]

pub record ProcessRuntimeOwner : Type 0 where
  pub processes : ProcessManager
  pub runtime : KernelRuntime
  pub current_process : Option ProcessId

unfoldable pub new : ProcessManager → KernelRuntime → ProcessRuntimeOwner
new processes runtime = record { processes = processes; runtime = runtime; current_process = none }

-- The checks that a process is bound to the current task, and runs.
unfoldable pub running_binding :
    ProcessRuntimeOwner → ProcessId → Result ProcessRuntimeError ProcessExecutionBinding
running_binding o process = do
  bound ← map_err process_error (Ops.binding o.processes process)
  binding ← ok_or bound task_binding_mismatch
  task ← ok_or o.runtime.manager.scheduler.current task_binding_mismatch
  _ ← refuse_if (not (binding.task == task)) task_binding_mismatch
  state ← map_err process_error (Ops.state o.processes process)
  _ ← refuse_if (not (state == running)) process_not_running
  ok binding

unfoldable pub bind_current :
    ProcessRuntimeOwner → ProcessId → ProcessRuntimeOwner × Result ProcessRuntimeError (Unit {0})
bind_current o process = elim (running_binding o process) [
  | err e ↦ (o, err e)
  | ok _ ↦ (record o { current_process = some process }, ok tt)
]

unfoldable pub current_task : ProcessRuntimeOwner → Option TaskId
current_task o = elim o.current_process [
  | none ↦ none
  | some process ↦ elim (Ops.binding o.processes process) [
    | err _ ↦ none
    | ok bound ↦ elim bound [ none ↦ none | some b ↦ some b.task ]
  ]
]

-- The exit of the process, and then of its task.
unfoldable pub leave :
    ProcessRuntimeOwner → ProcessId → ProcessRuntimeOwner × Result ProcessRuntimeError (Unit {0})
leave o process =
    let (m, exited) = Ops.exit o.processes process in
    elim exited [
      | err e ↦ (record o { processes = m }, err (process_error e))
      | ok _ ↦
          let (k, left) = KernelTask.exit_current o.runtime.manager in
          let o' : ProcessRuntimeOwner = record o {
            processes = m;
            runtime = record o.runtime { manager = k };
          } in
          if not left
          then (o', err task_binding_mismatch)
          else (record o' { current_process = none }, ok tt)
    ]

abbrev pub exit_from :
    ProcessRuntimeOwner
    → Option ProcessId
    → ProcessRuntimeOwner × Result ProcessRuntimeError (Unit {0})
exit_from o none = (o, err no_current_process)
exit_from o (some process) = elim (running_binding o process) [
  | err e ↦ (o, err e)
  | ok _ ↦ leave o process
]

-- The exit code plays no part.
unfoldable pub exit_current :
    ProcessRuntimeOwner → ℕ → ProcessRuntimeOwner × Result ProcessRuntimeError (Unit {0})
exit_current o code = exit_from o o.current_process

unfoldable pub request_yield :
    ProcessRuntimeOwner → ProcessRuntimeOwner × Result ProcessRuntimeError (Unit {0})
request_yield o = elim o.current_process [
  | none ↦ (o, err no_current_process)
  | some process ↦ elim (running_binding o process) [
    | err e ↦ (o, err e)
    | ok _ ↦ (record o { runtime = request_reschedule o.runtime }, ok tt)
  ]
]

unfoldable pub syscall_error : ProcessRuntimeError → Syscall.SyscallError
syscall_error e = Syscall.invalid_arguments

-- The owner as the control object of system calls.
unfoldable pub control : ProcessSyscallControl ProcessRuntimeOwner
control = record {
  on_exit = λ o code. let (o', r) = exit_current o code in (o', map_err syscall_error r);
  on_yield = λ o. let (o', r) = request_yield o in (o', map_err syscall_error r);
}
