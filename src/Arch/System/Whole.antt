-- ===== src/Arch/System/Whole.antt =====
-- What the owner of the system promises of an exit, from the system call to the next task.
use x.Base.{
  ℕ, ◌≡◌, ◌∙◌, ◌⊎◌, inl, inr, refl, sym, ap, true, none, some, ok, err, Result-cases, Option-cases,
  is_some, arith,
}
use x.Syscall.{SyscallError}
use x.Scheduler.Task.{TaskId}
use x.Scheduler.Reschedule
use x.Scheduler.Invariant.{Inv, CurrentRuns}
use x.Process.Identity.{ProcessId, process_id_eq_iff}
use x.Arch.UserExecution.{UserExecutionBinding}
use x.Arch.UserRegistry
use x.Arch.CpuLocal.{Cpu}
use x.Arch.System.{SystemRuntime, SystemRuntimeError, scheduler}
use x.Arch.System.Steps.{
  exitable, commit_noted, commit_pending_exit, current_binding_checked, control,
}
use x.Arch.System.Exit.{exitable_lem, get-task}
use x.Arch.System.Commit.{
  Ended, terminate-queue, processes_lem, commit_steps, release_task-Released,
}

-- Where the scheduler satisfies its invariant, its current task runs, and the task whose exit is noted
-- has its userspace binding, the commit of the exit is all or nothing. Either it answers an error, and
-- neither the system nor the processor changes; or the process has ended, the next userspace process
-- runs, and the scheduler, the owner and the processor all name its task, with the top of its own
-- kernel stack. The exit code that is recorded is 0, whatever code was noted.
pub commit_pending_exit-Ended :
    (s : SystemRuntime) (cpu : Cpu) (process : ProcessId) (id : TaskId) (code : ℕ)
    (b : UserExecutionBinding)
    → s.pending_exit ≡ some (process, id, code)
    → Inv (scheduler s)
    → CurrentRuns (scheduler s)
    → UserRegistry.get s.userspace id ≡ some b
    → ((e : SystemRuntimeError) × (commit_pending_exit s cpu ≡ (s, cpu, err e)))
      ⊎ ((s' : SystemRuntime) × (cpu' : Cpu) × (t : UserExecutionBinding) × (commit_pending_exit s
              cpu
            ≡ (s', cpu', ok t))
          × Ended s process t s' cpu')
unfolding commit_pending_exit
commit_pending_exit-Ended s cpu process id code b pending v runs bound =
    elim (Result-cases (exitable s process id)) [
      | inr (e, refused) ↦
          inl (e, ap (λ noted. commit_noted s cpu noted) pending ∙ rw (refused, commit_noted) refl)
      | inl ((t, h, top), checked) ↦
          let (now, is_running, (front, other, is_ready, (p, has_binding)), stack) =
            exitable_lem s process id t h top checked in
          let (m1, m2, started, ended, is_exited, code_kept, next_runs) =
            processes_lem s.processes process t.process p is_running is_ready has_binding in
          let (u, rest, handed) =
            terminate-queue (scheduler s) id t.task (scheduler s).ready.queue v runs now refl front
              other in
          let s2 : SystemRuntime = record s { processes = m2 } in
          let (s', cpu', result, kept, sched, owner, cleared, cpu_task, cpu_stack) =
            release_task-Released s2 cpu id b t h top _ handed bound in
          inr (
            s',
            cpu',
            t,
            commit_steps s cpu process id code t h top m1 m2 pending checked started ended ∙ result,
            (
              rw kept is_exited,
              rw kept code_kept,
              rw kept next_runs,
              ap (λ x. x.current) sched,
              owner,
              cleared,
              cpu_task,
              stack ∙ ap some (sym cpu_stack),
            ),
          )
    ]

checked_lem :
    (s : SystemRuntime) (user : UserExecutionBinding)
    → current_binding_checked s ≡ ok user
    → (s.pending_exit ≡ none)
      × (s.current_process ≡ some user.process)
      × ((scheduler s).current ≡ some user.task)
unfolding current_binding_checked is_some
checked_lem s user h = elim (Option-cases s.pending_exit) [
  | inr (x, noted) ↦ absurd (ground arith)
  | inl free ↦ elim (Option-cases s.current_process) [
    | inl nobody ↦ absurd (ground arith)
    | inr (p, process) ↦ elim (Option-cases (scheduler s).current) [
      | inl idle ↦ absurd (ground arith)
      | inr (x, now) ↦ elim (Option-cases (UserRegistry.get s.userspace x)) [
        | inl unbound ↦ absurd (ground arith)
        | inr (b, bound) ↦
            let same : b ≡ user = ground arith in
            let own = get-task s.userspace x bound in
            let here : b.process ≡ p = ground (arith, process_id_eq_iff b.process p) in
            rw (← same) (free, rw here process, rw own now)
      ]
    ]
  ]
]

-- An exit or a yield that the owner accepts was asked for by the process that it has as current, on the
-- scheduler's current task, with no exit noted before; the exit notes the process, the task and the
-- code, and both ask for a reschedule. One that it refuses changes nothing.
pub control_lem :
    (s : SystemRuntime) (code : ℕ)
    → let (s1, r1) = control.on_exit s code in
      let (s2, r2) = control.on_yield s in
      ((user : UserExecutionBinding) × (current_binding_checked s ≡ ok user)
        × (s.pending_exit ≡ none)
        × (s.current_process ≡ some user.process)
        × ((scheduler s).current ≡ some user.task)
        × (r1 ≡ ok tt)
        × (s1.pending_exit ≡ some (user.process, user.task, code))
        × (s1.runtime.reschedule.pending ≡ true)
        × (r2 ≡ ok tt)
        × (s2 ≡ record s { runtime = s1.runtime }))
      ⊎ ((e : SyscallError) × (s1 ≡ s) × (r1 ≡ err e) × (s2 ≡ s) × (r2 ≡ err e))
unfolding control Reschedule.request
control_lem s code = elim (Result-cases (current_binding_checked s)) [
  | inr (e, refused) ↦ inr (
    e,
    rw (refused, control) refl,
    rw (refused, control) refl,
    rw (refused, control) refl,
    rw (refused, control) refl,
  )
  | inl (user, checked) ↦
      let (free, process, task) = checked_lem s user checked in
      inl (
        user,
        checked,
        free,
        process,
        task,
        rw (checked, control) refl,
        rw (checked, control) refl,
        rw (checked, control) refl,
        rw (checked, control) refl,
        rw (checked, control) refl,
      )
]
