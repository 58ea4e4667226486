-- ===== src/Arch/Runtime.antt =====
-- The owner of the kernel's tasks on the one processor, kernel/src/arch/x86_64/runtime.rs, without the two
-- calls that switch stacks in assembly. The state of the processor is passed beside that of the owner.
use x.Base.{
  ℕ, Bool, true, false, not, Option, none, some, is_some, ◌==◌, if◌then◌else◌, Result, ok, err,
  map_err,
}
use x.Scheduler.Task.{TaskId, TaskId_Eq, TaskKind, kernel, userspace, Priority}
use x.Scheduler.State.{task_kind, next_ready}
use x.Scheduler.Reschedule
use x.Scheduler.Reschedule.{RescheduleRequest, PreemptionGate, is_enabled}
use x.Arch.Context.{Context, empty}
use x.Arch.Interrupted.{InterruptedState}
use x.Arch.Execution.{
  Allocation, ExecutionError, interrupted_state_already_present, install_interrupted,
}
use x.Arch.Registry
use x.Arch.Registry.{
  PreemptionPlan, return_to_context, iret_kernel, preemption_plan, take_kernel_preempt_state,
}
use x.Arch.CpuLocal.{
  Cpu, RuntimeBindingError, bind_runtime, interrupted_task, take_interrupted, has_interrupted,
  set_current_task, take_timer_pending,
}
use x.Arch.KernelTask
use x.Arch.KernelTask.{
  KernelTaskManager, KernelTaskError, same_task, prepare_dispatch, expire_sleepers,
}

pub data RuntimeError : Type 0 where
  task_error : KernelTaskError → RuntimeError
  no_runnable_task missing_execution_pair userspace_task_requires_system_runtime
        preemption_disabled :
      RuntimeError
  interrupted_state_error : ExecutionError → RuntimeError
  cpu_binding : RuntimeBindingError → RuntimeError
  interrupted_task_requires_iret : RuntimeError

pub data InterruptPreemption : Type 0 where
  resume_current : InterruptPreemption
  to_context : Context → InterruptPreemption
  to_kernel : InterruptedState → InterruptPreemption

pub record KernelRuntime : Type 0 where
  pub manager : KernelTaskManager
  pub boot_context : Context
  pub reschedule : RescheduleRequest
  pub preemption : PreemptionGate

unfoldable pub new : KernelRuntime
new = record {
  manager = KernelTask.new;
  boot_context = empty;
  reschedule = Reschedule.new_request;
  preemption = Reschedule.new_gate;
}

-- `pointer` is the address of the runtime.
unfoldable pub bind_cpu : Cpu → ℕ → Cpu × Result RuntimeError (Unit {0})
bind_cpu cpu pointer =
    let (l, r) = bind_runtime cpu.local pointer in (record cpu { local = l }, map_err cpu_binding r)

abbrev pub request_reschedule : KernelRuntime → KernelRuntime
request_reschedule rt = record rt { reschedule = Reschedule.request rt.reschedule }

unfoldable pub is_reschedule_pending : KernelRuntime → Bool
is_reschedule_pending rt = Reschedule.is_pending rt.reschedule

-- `let _ = self.reschedule.take();`
abbrev pub clear_request : KernelRuntime → KernelRuntime
clear_request rt = record rt { reschedule = (Reschedule.take rt.reschedule).0 }

abbrev pub discard_interrupted_state : Cpu → Cpu
discard_interrupted_state cpu = record cpu { local = (take_interrupted cpu.local).0 }

-- The owner, the processor and the result of a call.
abbrev pub Outcome : Type 0 → Type 0
Outcome A = KernelRuntime × Cpu × Result RuntimeError A

-- The snapshot that was captured is taken from the processor and given to the task.
unfoldable pub install_captured : KernelRuntime → Cpu → TaskId → Outcome (Unit {0})
install_captured rt cpu task = elim (Registry.get rt.manager.executions task) [
  | none ↦ (rt, cpu, err missing_execution_pair)
  | some b ↦
      let (l, taken) = take_interrupted cpu.local in
      elim taken [
        | none ↦ (rt, record cpu { local = l }, err missing_execution_pair)
        | some (captured, snapshot) ↦
            if not (captured == task)
            then (rt, record cpu { local = l }, err missing_execution_pair)
            else let (b', r) = install_interrupted b snapshot in
              (
                record rt {
                  manager = record rt.manager {
                    executions = Registry.put rt.manager.executions task b';
                  };
                },
                record cpu { local = l },
                map_err interrupted_state_error r,
              )
      ]
]

unfoldable pub commit_interrupted_state : KernelRuntime → Cpu → Outcome (Unit {0})
commit_interrupted_state rt cpu = elim cpu.local.current_task [
  | none ↦
      if has_interrupted cpu.local then (rt, cpu, err missing_execution_pair) else (rt, cpu, ok tt)
  | some task ↦ elim (Registry.get rt.manager.executions task) [
    | none ↦ (rt, cpu, err missing_execution_pair)
    | some b ↦
        if is_some b.interrupted
        then (rt, cpu, err (interrupted_state_error interrupted_state_already_present))
        else elim (interrupted_task cpu.local) [
          | none ↦ (rt, cpu, ok tt)
          | some captured ↦
              if not (captured == task)
              then (rt, cpu, err missing_execution_pair)
              else install_captured rt cpu task
        ]
  ]
]

unfoldable pub spawn :
    Allocation → KernelRuntime → Priority → ℕ → Option (KernelRuntime × Result RuntimeError TaskId)
spawn a rt priority entry = elim (KernelTask.spawn a rt.manager priority entry) [
  | none ↦ none
  | some (m, r) ↦ some (record rt { manager = m }, map_err task_error r)
]

abbrev pub is_userspace : Option TaskKind → Bool
is_userspace none = false
is_userspace (some kernel) = false
is_userspace (some userspace) = true

unfoldable pub prepare_run : KernelRuntime → Cpu → Outcome TaskId
prepare_run rt cpu =
    let (m, cpu', r) = prepare_dispatch rt.manager cpu in
    let rt' = record rt { manager = m } in
    elim r [
      | err e ↦ (rt', cpu', err (task_error e))
      | ok decision ↦ elim decision.next [
        | none ↦ (rt', cpu', err no_runnable_task)
        | some next ↦
            if is_userspace (task_kind m.scheduler next)
            then (rt', cpu', err userspace_task_requires_system_runtime)
            else (rt', cpu', ok next)
      ]
    ]

unfoldable pub prepare_preemption : KernelRuntime → Result RuntimeError PreemptionPlan
prepare_preemption rt = elim (next_ready rt.manager.scheduler) [
  | none ↦ err no_runnable_task
  | some next ↦
      if is_userspace (task_kind rt.manager.scheduler next)
      then err userspace_task_requires_system_runtime
      else elim (preemption_plan rt.manager.executions next) [
        | none ↦ err missing_execution_pair
        | some plan ↦ ok plan
      ]
]

-- The return to the candidate that became the current task.
unfoldable pub return_to :
    KernelRuntime → Cpu → TaskId → PreemptionPlan → Outcome InterruptPreemption
return_to rt cpu candidate plan = elim plan [
  | return_to_context _ context ↦
      (clear_request rt, set_current_task cpu (some candidate), ok (to_context context))
  | iret_kernel _ _ ↦
      let (executions, taken) = take_kernel_preempt_state rt.manager.executions candidate in
      let rt' : KernelRuntime = record rt {
        manager = record rt.manager { executions = executions };
      } in
      elim taken [
        | none ↦ (request_reschedule rt', cpu, err missing_execution_pair)
        | some state ↦
            (clear_request rt', set_current_task cpu (some candidate), ok (to_kernel state))
      ]
]

-- The dispatch of the candidate, once the interrupted state is committed.
unfoldable pub preempt_to :
    KernelRuntime → Cpu → TaskId → PreemptionPlan → Outcome InterruptPreemption
preempt_to rt cpu candidate plan =
    let (m, cpu', r) = prepare_dispatch rt.manager cpu in
    let rt' : KernelRuntime = record rt { manager = m } in
    elim r [
      | err e ↦ (request_reschedule rt', cpu', err (task_error e))
      | ok decision ↦
          if not (same_task decision.next (some candidate))
          then (request_reschedule rt', cpu', err missing_execution_pair)
          else return_to rt' cpu' candidate plan
    ]

-- The choice of the timer handler, after the sleepers are woken.
unfoldable pub preempt : KernelRuntime → Cpu → Outcome InterruptPreemption
preempt rt cpu = elim (next_ready rt.manager.scheduler) [
  | none ↦ (request_reschedule rt, discard_interrupted_state cpu, ok resume_current)
  | some candidate ↦
      if is_userspace (task_kind rt.manager.scheduler candidate)
      then (request_reschedule rt, cpu, err userspace_task_requires_system_runtime)
      else if same_task (some candidate) rt.manager.scheduler.current
      then (rt, discard_interrupted_state cpu, ok resume_current)
      else elim (preemption_plan rt.manager.executions candidate) [
        | none ↦ (request_reschedule rt, discard_interrupted_state cpu, err missing_execution_pair)
        | some plan ↦
            let (rt', cpu', r) = commit_interrupted_state rt cpu in
            elim r [
              | err e ↦ (request_reschedule rt', cpu', err e)
              | ok _ ↦ preempt_to rt' cpu' candidate plan
            ]
      ]
]

unfoldable pub handle_timer_preemption : KernelRuntime → Cpu → Outcome InterruptPreemption
handle_timer_preemption rt cpu =
    let cpu' = (take_timer_pending cpu).0 in
    if not (is_enabled rt.preemption)
    then (request_reschedule rt, discard_interrupted_state cpu', ok resume_current)
    else preempt (record rt { manager = (expire_sleepers rt.manager cpu'.timer_ticks).0 }) cpu'

unfoldable pub service_timer : KernelRuntime → ℕ → KernelRuntime × ℕ
service_timer rt now =
    let (m, woken) = expire_sleepers rt.manager now in
    (request_reschedule (record rt { manager = m }), woken)

unfoldable pub service_pending_timer : KernelRuntime → Cpu → ℕ → KernelRuntime × Cpu × ℕ
service_pending_timer rt cpu now =
    let (cpu', pending) = take_timer_pending cpu in
    if not pending
    then (rt, cpu', 0)
    else let (rt', woken) = service_timer rt now in (rt', cpu', woken)
