-- ===== src/Process/Binding.antt =====
-- The construction of a process's first task, kernel/src/process/scheduler_binding.rs.
pub mod Laws
use x.Base.{Option, none, some, Result, ok, err, if◌then◌else◌}
use x.Scheduler.Task.{TaskId, Priority}
use x.Scheduler.State.{Scheduler, SchedulerError, create_task}
use x.Scheduler.Ops.{attach_execution, destroy_created, make_ready}
use x.Process.AddressSpace.{AddressSpaceId}
use x.Process.Identity.{ProcessId}
use x.Process.Manager.{ProcessManager, ProcessManagerError}
use x.Process.Manager.Ops

pub data ProcessSchedulerBindError : Type 0 where
  process_error : ProcessManagerError → ProcessSchedulerBindError
  scheduler_error : SchedulerError → ProcessSchedulerBindError
  cleanup_failed : ProcessSchedulerBindError

-- The registry, the scheduler and the result.
abbrev pub Outcome : Type 0
Outcome = ProcessManager × Scheduler × Result ProcessSchedulerBindError TaskId

-- `cleanup_created_task(scheduler, task)?; return Err(error)`
unfoldable pub cleanup_created_task :
    ProcessManager → Scheduler → TaskId → ProcessSchedulerBindError → Outcome
cleanup_created_task m s task error =
    let (s', removed) = destroy_created s task in
    elim removed [ ok _ ↦ (m, s', err error) | err _ ↦ (m, s', err cleanup_failed) ]

-- The last step: the task, created and bound, goes to the ready queue.
unfoldable pub ready_task : ProcessManager → Scheduler → ProcessId → TaskId → Outcome
unfolding cleanup_created_task
ready_task m s process task =
    let (s', queued) = make_ready s task in
    if queued
    then (m, s', ok task)
    else cleanup_created_task (Ops.exit m process).0 s' task cleanup_failed

-- From the task that was created on.
unfoldable pub bind_task :
    ProcessManager → Scheduler → ProcessId → AddressSpaceId → TaskId → Outcome
unfolding cleanup_created_task ready_task
bind_task m s process address_space task =
    let (s', attached) = attach_execution s task in
    elim attached [
      | err e ↦ cleanup_created_task m s' task (scheduler_error e)
      | ok execution ↦
          let (m', bound) = Ops.attach_execution m process task execution address_space in
          elim bound [
            | err e ↦ cleanup_created_task m' s' task (process_error e)
            | ok _ ↦ ready_task m' s' process task
          ]
    ]

-- `none` is a panic of `create_task`.
unfoldable pub bind_and_ready : ProcessManager → Scheduler → ProcessId → Priority → Option Outcome
unfolding bind_task
bind_and_ready m s process priority = elim (Ops.image m process) [
  | err e ↦ some (m, s, err (process_error e))
  | ok image ↦ elim (create_task s priority) [
    | none ↦ none
    | some (s', task) ↦ some (bind_task m s' process image.address_space.id task)
  ]
]
