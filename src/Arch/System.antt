-- ===== src/Arch/System.antt =====
-- The owner of processes, tasks and userspace execution, kernel/src/arch/x86_64/system_runtime.rs, with the
-- choice of the next userspace task, kernel/src/arch/x86_64/user_successor.rs. An operation that answers a
-- transfer answers the binding that is to be entered.
pub mod Steps
pub mod Exit
pub mod Commit
pub mod Whole
pub mod Launch
use x.Base.{
  ℕ, Bool, true, false, not, ◌||◌, Option, none, some, is_some, nat_eq, ◌==◌, if◌then◌else◌, Result,
  ok, err, map_err, ok_or, refuse_if, ◌>>=◌,
}
use x.Syscall
use x.Syscall.{ProcessSyscallControl, invalid_arguments}
use x.Scheduler.Task.{
  TaskId, TaskId_Eq, TaskKind, TaskState, TaskState_Eq, ready, Priority, ExecutionHandle,
}
use x.Scheduler.State
use x.Scheduler.State.{Scheduler, create_user_task, task_kind, next_ready, execution}
use x.Scheduler.Ops.{
  attach_execution, destroy_created, make_ready, schedule_next, terminate_current_to,
}
use x.Process.AddressSpace.{AddressSpaceId, id_eq}
use x.Process.Identity.{
  ProcessId, ProcessId_Eq, ProcessState, ProcessState_Eq, running, ProcessExecutionBinding,
}
use x.Process.Identity
use x.Process.Image.{ProcessImage}
use x.Process.Manager.{ProcessManager, ProcessManagerError, invalid_transition}
use x.Process.Manager
use x.Process.Manager.Ops
use x.Arch.Interrupted.{InterruptedState, is_user_valid, privilege, reserved_flag}
use x.Arch.Execution.{Allocation}
use x.Arch.Registry
use x.Arch.Registry.{kernel_stack_top}
use x.Arch.UserExecution.{
  PreparedUserLaunch, UserExecutionBinding, UserExecutionRegistry, UserExecutionRegistryError,
  new_user_binding, interrupt_flag,
}
use x.Arch.UserRegistry
use x.Arch.CpuLocal.{Cpu, bind_system_runtime, set_current_task, set_kernel_stack_top}
use x.Arch.KernelTask.{KernelTaskManager, same_task}
use x.Arch.KernelTask
use x.Arch.Runtime
use x.Arch.Runtime.{KernelRuntime, RuntimeError, task_error, is_userspace, request_reschedule}

pub data UserSuccessorError : Type 0 where
  no_ready_task not_userspace missing_binding process_binding_mismatch task_not_ready :
      UserSuccessorError

pub data UserReturnTransferError : Type 0 where
  current_task invalid_selectors invalid_rflags invalid_resume_state : UserReturnTransferError

pub record SystemRuntime : Type 0 where
  pub processes : ProcessManager
  pub runtime : KernelRuntime
  pub userspace : UserExecutionRegistry
  pub current_process : Option ProcessId
  pub pending_exit : Option (ProcessId × TaskId × ℕ)

pub data SystemRuntimeError : Type 0 where
  runtime_error : RuntimeError → SystemRuntimeError
  user_binding : UserExecutionRegistryError → SystemRuntimeError
  process_error : ProcessManagerError → SystemRuntimeError
  address_space_mismatch no_current_process task_binding_mismatch scheduler_task_not_ready :
      SystemRuntimeError
  successor_error : UserSuccessorError → SystemRuntimeError
  kernel_stack_unavailable : SystemRuntimeError

unfoldable pub new : SystemRuntime
new = record {
  processes = Manager.new;
  runtime = Runtime.new;
  userspace = UserRegistry.new;
  current_process = none;
  pending_exit = none;
}

abbrev pub scheduler : SystemRuntime → Scheduler
scheduler s = s.runtime.manager.scheduler

-- What is written through `runtime.manager_mut()`.
abbrev pub with_manager : SystemRuntime → KernelTaskManager → SystemRuntime
with_manager s m = record s { runtime = record s.runtime { manager = m } }

abbrev pub with_scheduler : SystemRuntime → Scheduler → SystemRuntime
with_scheduler s t = with_manager s (record s.runtime.manager { scheduler = t })

-- `pointer` is the address of the owner, `inner` that of its runtime.
unfoldable pub bind_cpu : Cpu → ℕ → ℕ → Cpu × Result SystemRuntimeError (Unit {0})
bind_cpu cpu inner pointer =
    let (cpu', r) = Runtime.bind_cpu cpu inner in
    elim r [
      | err e ↦ (cpu', err (runtime_error e))
      | ok _ ↦
          let (l, s) = bind_system_runtime cpu'.local pointer in
          (record cpu' { local = l }, map_err (λ _. task_binding_mismatch) s)
    ]

-- `UserReturnTransfer::new(binding).validate(current_task)`
unfoldable pub validate_transfer :
    UserExecutionBinding → Option TaskId → Result UserReturnTransferError UserExecutionBinding
validate_transfer b current =
    if same_task current (some b.task) then err current_task else elim b.resume [
      | some state ↦ if not (is_user_valid state) then err invalid_resume_state else ok b
      | none ↦
          let frame = b.launch.frame in
          if not (nat_eq (privilege frame.cs) 3) || not (nat_eq (privilege frame.ss) 3)
          then err invalid_selectors
          else if not (reserved_flag frame.rflags) || not (interrupt_flag frame.rflags)
          then err invalid_rflags
          else ok b
    ]

-- `select_userspace_successor`, from its candidate on.
unfoldable pub successor_binding :
    SystemRuntime → TaskId → Result UserSuccessorError UserExecutionBinding
successor_binding s task = do
  b ← ok_or (UserRegistry.get s.userspace task) missing_binding
  bound ← map_err (λ _. process_binding_mismatch) (Ops.binding s.processes b.process)
  p ← ok_or bound process_binding_mismatch
  _ ←
      refuse_if (not (p.task == task) || not (id_eq p.address_space b.address_space))
        process_binding_mismatch
  state ← map_err (λ _. process_binding_mismatch) (Ops.state s.processes b.process)
  _ ← refuse_if (not (state == Identity.ready)) process_binding_mismatch
  ok b

abbrev pub in_task_state : Option TaskState → TaskState → Bool
in_task_state none st = false
in_task_state (some t) st = t == st

unfoldable pub select_userspace_successor :
    SystemRuntime → Option TaskId → Result UserSuccessorError UserExecutionBinding
select_userspace_successor s current = do
  task ← ok_or (next_ready (scheduler s)) no_ready_task
  _ ← refuse_if (same_task (some task) current) task_not_ready
  _ ← refuse_if (not (is_userspace (task_kind (scheduler s) task))) not_userspace
  _ ← refuse_if (not (in_task_state (State.state (scheduler s) task) ready)) task_not_ready
  successor_binding s task
