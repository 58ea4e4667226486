-- ===== src/Arch/ProcessRuntime/Laws.antt =====
-- What an exit through the process bridge leaves behind.
use x.Base.{
  ℕ, ◌≡◌, ◌∙◌, refl, ap, Bool, true, false, is_some, none, some, if◌then◌else◌, Result, ok, err,
  Result-cases, Option-cases, inl, inr, arith,
}
use x.Scheduler.Task.{TaskId, task_id_eq_iff, for_task, running}
use x.Scheduler.State.{task, execution}
use x.Scheduler.Invariant.{in_state}
use x.Process.Identity.{
  ProcessId, ProcessExecutionBinding, ProcessState, process_state_eq_iff, exited,
}
use x.Process.Identity
use x.Process.Manager.{ProcessManager, Slot, put}
use x.Process.Manager.Ops
use x.Arch.Registry
use x.Arch.KernelTask
use x.Arch.KernelTask.Laws.{Owned}
use x.Arch.KernelTask.Exit.{exit_current_lem}
use x.Arch.System.Commit.{slot-state, slot-write, exit-ok, state-slot}
use x.Arch.ProcessRuntime.{
  ProcessRuntimeOwner, ProcessRuntimeError, task_binding_mismatch, running_binding, leave,
  exit_from, exit_current,
}

-- A process that is bound to the current task runs.
running_binding-state :
    (o : ProcessRuntimeOwner) (process : ProcessId) (b : ProcessExecutionBinding)
    → running_binding o process ≡ ok b
    → Ops.state o.processes process ≡ ok Identity.running
unfolding running_binding
running_binding-state o process b h = elim (Result-cases (Ops.state o.processes process)) [
  | inr (e, bad) ↦ absurd (ground arith)
  | inl (st, good) ↦
      let runs : st ≡ Identity.running = ground (arith, process_state_eq_iff st Identity.running) in
      rw runs at good
]

running_binding-task :
    (o : ProcessRuntimeOwner) (process : ProcessId) (b : ProcessExecutionBinding)
    → running_binding o process ≡ ok b
    → o.runtime.manager.scheduler.current ≡ some b.task
unfolding running_binding
running_binding-task o process b h = elim (Option-cases o.runtime.manager.scheduler.current) [
  | inl idle ↦ absurd (ground arith)
  | inr (x, now) ↦ ground (arith, task_id_eq_iff b.task x)
]

process_exits :
    (m : ProcessManager) (p : ProcessId)
    → Ops.state m p ≡ ok Identity.running
    → (m' : ProcessManager) × (Ops.exit m p ≡ (m', ok tt)) × (Ops.state m' p ≡ ok exited)
process_exits m p h =
    let (c, at, runs) = slot-state m p Identity.running h in
    let c' : Slot = record c { state = some exited; exit_code = some 0 } in
    (
      put m p.index c',
      exit-ok m p c at runs,
      state-slot (put m p.index c') p c' exited
          (slot-write m p c c' at refl (unfold is_some in refl)) refl,
    )

-- The outcome of an exit, by whether the kernel's registry had an execution for the task.
abbrev Leaves :
    ProcessRuntimeOwner
    → ProcessId
    → TaskId
    → Bool
    → ProcessRuntimeOwner × Result ProcessRuntimeError (Unit {0})
    → Type 0
Leaves o process id bound (o', r) =
    (r ≡ (if bound then ok tt else err task_binding_mismatch))
    × (o'.current_process ≡ (if bound then none else o.current_process))
    × (Ops.state o'.processes process ≡ ok exited)
    × (task o'.runtime.manager.scheduler id ≡ none)

leave-Leaves :
    (o : ProcessRuntimeOwner) (process : ProcessId) (id : TaskId) (m' : ProcessManager)
    (bound : Bool)
    → Ops.exit o.processes process ≡ (m', ok tt)
    → Ops.state m' process ≡ ok exited
    → (KernelTask.exit_current o.runtime.manager).1 ≡ bound
    → task (KernelTask.exit_current o.runtime.manager).0.scheduler id ≡ none
    → Leaves o process id bound (leave o process)
unfolding leave
leave-Leaves o process id m' true ended is_exited answer gone =
    rw (ended, leave) (rw answer (refl, refl, rw ended is_exited, gone))
leave-Leaves o process id m' false ended is_exited answer gone =
    rw (ended, leave) (rw answer (refl, refl, rw ended is_exited, gone))

-- Where the coordinator of kernel tasks is sound (its scheduler satisfies its invariant, no task has two
-- executions in the registry, and no execution is there for a task that the scheduler does not have), and
-- the current process runs and is bound to the current task, which runs too and has its execution handle
-- attached in the scheduler, an exit ends the process, and the task is gone from the scheduler. The exit
-- succeeds, and the owner forgets the process, just where the kernel's registry had an execution for the
-- task; otherwise it reports a mismatch, and the owner keeps the process that has ended as its current one.
pub exit_current-Ends :
    (o : ProcessRuntimeOwner) (process : ProcessId) (b : ProcessExecutionBinding) (code : ℕ)
    → Owned o.runtime.manager
    → o.current_process ≡ some process
    → running_binding o process ≡ ok b
    → in_state running (task o.runtime.manager.scheduler b.task) ≡ true
    → execution o.runtime.manager.scheduler b.task ≡ some (for_task b.task)
    → let (o', r) = exit_current o code in
      let bound = Registry.contains o.runtime.manager.executions (for_task b.task) in
      (r ≡ (if bound then ok tt else err task_binding_mismatch))
      × (o'.current_process ≡ (if bound then none else some process))
      × (Ops.state o'.processes process ≡ ok exited)
      × (task o'.runtime.manager.scheduler b.task ≡ none)
unfolding exit_current
exit_current-Ends o process b code owned current bound runs attached =
    let now = running_binding-task o process b bound in
    let (m', ended, is_exited) =
      process_exits o.processes process (running_binding-state o process b bound) in
    let (answer, gone, _, _) = exit_current_lem o.runtime.manager b.task owned now runs attached in
    let left = leave-Leaves o process b.task m' _ ended is_exited answer gone in
    let steps : exit_current o code ≡ leave o process =
      ap (λ p. exit_from o p) current ∙ rw (bound, exit_from) refl in
    rw (steps, ← current) left
