-- ===== src/Arch/KernelTask.antt =====
-- The coordinator of kernel tasks, kernel/src/arch/x86_64/kernel_task.rs: the scheduler, the registry of
-- execution bindings and the sleepers.
pub mod Laws
pub mod Exit
use x.Base.{
  ℕ, Bool, true, false, not, Option, none, some, List, ◌==◌, length, is_some, if◌then◌else◌, Result,
  ok, err, map_err, ok_or, ◌>>=◌,
}
use x.Scheduler.Task.{TaskId, TaskId_Eq, Priority, ExecutionHandle}
use x.Scheduler.State
use x.Scheduler.State.{
  Scheduler, SchedulerError, task_not_created, DispatchDecision, create_task, execution, task_count,
}
use x.Scheduler.Ops.{attach_execution, destroy_created, make_ready, schedule_next}
use x.Scheduler.Waiting
use x.Scheduler.SleepQueue.{SleepQueue}
use x.Scheduler.SleepQueue
use x.Arch.Execution.{Allocation}
use x.Arch.Registry
use x.Arch.Registry.{
  ExecutionRegistry, RegistryInsertError, DispatchError, validate_transition, kernel_stack_top,
}
use x.Arch.CpuLocal.{Cpu, set_kernel_stack_top}

pub data KernelTaskError : Type 0 where
  scheduler_error : SchedulerError → KernelTaskError
  registry_error : RegistryInsertError → KernelTaskError
  dispatch_error : DispatchError → KernelTaskError
  dispatch_mismatch kernel_stack_unavailable : KernelTaskError

pub record KernelTaskManager : Type 0 where
  pub scheduler : Scheduler
  pub executions : ExecutionRegistry
  pub sleepers : SleepQueue

unfoldable pub new : KernelTaskManager
new = record { scheduler = State.new; executions = Registry.new; sleepers = SleepQueue.new }

-- `let _ = self.scheduler.destroy_created(task_id); return Err(error);`
unfoldable pub discard :
    KernelTaskManager → TaskId → KernelTaskError → KernelTaskManager × Result KernelTaskError TaskId
discard m id e = (record m { scheduler = (destroy_created m.scheduler id).0 }, err e)

-- The last step of `spawn`.
unfoldable pub expose :
    KernelTaskManager → TaskId → ExecutionHandle → KernelTaskManager × Result KernelTaskError TaskId
expose m id handle =
    let (s, queued) = make_ready m.scheduler id in
    if queued
    then (record m { scheduler = s }, ok id)
    else discard (record m { scheduler = s; executions = (Registry.remove m.executions handle).0 })
        id (scheduler_error task_not_created)

-- `spawn`, from the task that was created on.
unfoldable pub install :
    Allocation → KernelTaskManager → TaskId → ℕ → KernelTaskManager × Result KernelTaskError TaskId
install a m id entry =
    let (s, attached) = attach_execution m.scheduler id in
    elim attached [
      | err e ↦ discard (record m { scheduler = s }) id (scheduler_error e)
      | ok handle ↦
          let (r, inserted) = Registry.insert a m.executions handle entry in
          elim inserted [
            | err e ↦ discard (record m { scheduler = s; executions = r }) id (registry_error e)
            | ok _ ↦ expose (record m { scheduler = s; executions = r }) id handle
          ]
    ]

-- `none` is a panic of `create_task`.
unfoldable pub spawn :
    Allocation
    → KernelTaskManager
    → Priority
    → ℕ
    → Option (KernelTaskManager × Result KernelTaskError TaskId)
spawn a m priority entry = elim (create_task m.scheduler priority) [
  | none ↦ none
  | some (s, id) ↦ some (install a (record m { scheduler = s }) id entry)
]

abbrev pub same_task : Option TaskId → Option TaskId → Bool
same_task none none = true
same_task none (some b) = false
same_task (some a) none = false
same_task (some a) (some b) = a == b

-- The commitment to a candidate whose execution was validated.
unfoldable pub commit_dispatch :
    KernelTaskManager
    → Cpu
    → TaskId
    → ℕ
    → KernelTaskManager × Cpu × Result KernelTaskError DispatchDecision
commit_dispatch m cpu candidate stack_top =
    let (s, decision) = schedule_next m.scheduler in
    if not (same_task decision.next (some candidate))
    then (record m { scheduler = s }, cpu, err dispatch_mismatch)
    else (record m { scheduler = s }, set_kernel_stack_top cpu stack_top, ok decision)

abbrev stay : Option TaskId → DispatchDecision
stay previous = record { previous = previous; next = none }

unfoldable pub prepare_dispatch :
    KernelTaskManager → Cpu → KernelTaskManager × Cpu × Result KernelTaskError DispatchDecision
prepare_dispatch m cpu =
    let previous = m.scheduler.current in
    elim (State.next_ready m.scheduler) [
      | none ↦ (m, cpu, ok (stay previous))
      | some candidate ↦
          if same_task (some candidate) previous
          then (m, cpu, ok (stay previous))
          else elim (validate_transition m.executions previous candidate) [
            | err e ↦ (m, cpu, err (dispatch_error e))
            | ok _ ↦ elim (kernel_stack_top m.executions candidate) [
              | none ↦ (m, cpu, err kernel_stack_unavailable)
              | some stack_top ↦ commit_dispatch m cpu candidate stack_top
            ]
          ]
    ]

unfoldable pub sleep_current_until :
    KernelTaskManager → ℕ → KernelTaskManager × Result KernelTaskError TaskId
sleep_current_until m deadline =
    let (s, q, result) = Waiting.sleep_current_until m.scheduler deadline m.sleepers in
    (record m { scheduler = s; sleepers = q }, map_err scheduler_error result)

unfoldable pub expire_sleepers : KernelTaskManager → ℕ → KernelTaskManager × ℕ
expire_sleepers m now =
    let (s, q, woken) = Waiting.expire_sleepers m.scheduler now m.sleepers in
    (record m { scheduler = s; sleepers = q }, length woken)

unfoldable pub next_sleep_deadline : KernelTaskManager → Option ℕ
next_sleep_deadline m = SleepQueue.next_deadline m.sleepers

unfoldable pub is_executable : KernelTaskManager → TaskId → Bool
is_executable m id = elim (execution m.scheduler id) [
  | none ↦ false
  | some handle ↦ Registry.is_valid m.executions handle
]

unfoldable pub exit_current : KernelTaskManager → KernelTaskManager × Bool
exit_current m = elim m.scheduler.current [
  | none ↦ (m, false)
  | some id ↦ elim (execution m.scheduler id) [
    | none ↦ (m, false)
    | some handle ↦
        let q = (SleepQueue.remove m.sleepers id).0 in
        let (s, left) = Waiting.exit_current m.scheduler in
        if not left
        then (record m { scheduler = s; sleepers = q }, false)
        else let (r, removed) = Registry.remove m.executions handle in
          (record m { scheduler = s; sleepers = q; executions = r }, removed)
  ]
]
