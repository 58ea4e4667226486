-- ===== src/Arch/System/Exit.antt =====
-- The commit of an exit: the process that asked for it ends, and the next userspace task is entered.
use x.Base.{
  ℕ, ◌≡◌, ◌∙◌, inl, inr, ap, false, Option, some, ◌==◌, ok, Result-cases, Option-cases, arith,
}
use x.Scheduler.Task.{TaskId, TaskId_Eq, task_id_eq_iff, TaskState_Eq, ExecutionHandle}
use x.Scheduler.State.{next_ready}
use x.Process.Identity.{
  ProcessId, ProcessId_Eq, ProcessState, ProcessState_Eq, process_state_eq_iff,
  ProcessExecutionBinding, exited,
}
use x.Process.Identity
use x.Process.Manager.Ops
use x.Arch.Slots.{find_entry-task}
use x.Arch.Registry.{kernel_stack_top}
use x.Arch.UserExecution.{UserExecutionBinding, UserExecutionRegistry, user_task}
use x.Arch.UserRegistry
use x.Arch.System.{
  SystemRuntime, scheduler, validate_transfer, select_userspace_successor, successor_binding,
}
use x.Arch.System.Steps.{exitable}

pub get-task :
    (r : UserExecutionRegistry) (id : TaskId) {b : UserExecutionBinding}
    → UserRegistry.get r id ≡ some b
    → b.task ≡ id
unfolding UserRegistry.get
get-task r id h = find_entry-task user_task r.entries id h

-- What the choice of a successor establishes.
abbrev pub Succeeds : SystemRuntime → TaskId → UserExecutionBinding → Type 0
Succeeds s current b =
    (next_ready (scheduler s) ≡ some b.task)
    × ((current == b.task) ≡ false)
    × (Ops.state s.processes b.process ≡ ok Identity.ready)
    × ((p : ProcessExecutionBinding) × (Ops.binding s.processes b.process ≡ ok (some p)))

successor_binding-state :
    (s : SystemRuntime) (id : TaskId) (b : UserExecutionBinding)
    → successor_binding s id ≡ ok b
    → (Ops.state s.processes b.process ≡ ok Identity.ready)
      × ((p : ProcessExecutionBinding) × (Ops.binding s.processes b.process ≡ ok (some p)))
      × (UserRegistry.get s.userspace id ≡ some b)
unfolding successor_binding
successor_binding-state s id b h = elim (Option-cases (UserRegistry.get s.userspace id)) [
  | inl lost ↦ absurd (ground arith)
  | inr (c, found) ↦ elim (Result-cases (Ops.state s.processes c.process)) [
    | inr (e, bad) ↦ absurd (ground arith)
    | inl (st, good) ↦ elim (Result-cases (Ops.binding s.processes c.process)) [
      | inr (e, bad) ↦ absurd (ground arith)
      | inl (o, bound) ↦ elim (Option-cases o) [
        | inl unbound ↦ absurd (ground arith)
        | inr (p, there) ↦
            let same : c ≡ b = ground arith in
            let is_ready : st ≡ Identity.ready =
              ground (arith, process_state_eq_iff st Identity.ready) in
            rw (← same) (rw (← is_ready) good, (p, rw (← there) bound), found)
      ]
    ]
  ]
]

successor-Succeeds :
    (s : SystemRuntime) (current : TaskId) (b : UserExecutionBinding)
    → select_userspace_successor s (some current) ≡ ok b
    → Succeeds s current b
unfolding select_userspace_successor
successor-Succeeds s current b h = elim (Option-cases (next_ready (scheduler s))) [
  | inl idle ↦ absurd (ground arith)
  | inr (x, front) ↦
      let chosen : successor_binding s x ≡ ok b = ground arith in
      let (is_ready, bound, found) = successor_binding-state s x b chosen in
      let own = get-task s.userspace x found in
      (
        rw own front,
        ground (arith, task_id_eq_iff current b.task, task_id_eq_iff x current),
        is_ready,
        bound,
      )
]

transfer_same :
    (b t : UserExecutionBinding) (current : Option TaskId)
    → validate_transfer b current ≡ ok t
    → b ≡ t
unfolding validate_transfer
transfer_same b t current h = ground arith

-- What the checks of a commit establish.
pub exitable_lem :
    (s : SystemRuntime) (process : ProcessId) (id : TaskId) (t : UserExecutionBinding)
    (h : ExecutionHandle) (top : ℕ)
    → exitable s process id ≡ ok (t, h, top)
    → ((scheduler s).current ≡ some id)
      × (Ops.state s.processes process ≡ ok Identity.running)
      × Succeeds s id t
      × (kernel_stack_top s.runtime.manager.executions t.task ≡ some top)
unfolding exitable
exitable_lem s process id t h top e = elim (Result-cases (select_userspace_successor s (some id))) [
  | inr (x, bad) ↦ absurd (ground arith)
  | inl (b, chosen) ↦ elim (Result-cases (validate_transfer b (some id))) [
    | inr (x, bad) ↦ absurd (ground arith)
    | inl (c, valid) ↦ elim (Option-cases (scheduler s).current) [
      | inl idle ↦ absurd (ground arith)
      | inr (x, now) ↦ elim (Result-cases (Ops.state s.processes process)) [
        | inr (z, bad) ↦ absurd (ground arith)
        | inl (st, good) ↦
            let same : c ≡ t = ground arith in
            let own : x ≡ id = ground (arith, task_id_eq_iff x id) in
            let runs : st ≡ Identity.running =
              ground (arith, process_state_eq_iff st Identity.running) in
            let chosen' : select_userspace_successor s (some id) ≡ ok t =
              chosen ∙ ap ok (transfer_same b c (some id) valid ∙ same) in
            (rw own at now, rw runs at good, successor-Succeeds s id t chosen', ground arith)
      ]
    ]
  ]
]
