-- ===== src/Arch/System/Commit.antt =====
-- The commit of an exit as a whole: all or nothing.
use x.Base.{
  ℕ, ◌≡◌, ◌≢◌, ◌∙◌, inl, inr, refl, ap, true, false, none, some, List, [], ◌∷◌, is_some, nat_eq,
  ◌==◌, get_elem?, get_elem?-lt, Result, ok, Result-cases, Option-cases, Bool-cases, arith,
}
use x.Scheduler.Task.{
  TaskId, TaskId_Eq, task_id_eq_iff, TaskControlBlock, TaskState_Eq, running, ExecutionHandle,
}
use x.Scheduler.State.{Scheduler, task, next_ready}
use x.Scheduler.Ops.{terminate, terminate_current_to}
use x.Scheduler.RunQueue
use x.Scheduler.Invariant.{Inv, CurrentRuns}
use x.Scheduler.Preservation.Dispatch.{front_ready}
use x.Scheduler.Preservation.Exit.Terminate.{
  handed_over, terminate_front, retire_current_lem, peek-cons,
}
use x.Process.Identity.{
  ProcessId, ProcessState, ProcessState_Eq, process_state_eq_iff, ProcessExecutionBinding, exited,
}
use x.Process.Identity
use x.Process.Manager.{ProcessManager, Slot, slot, put}
use x.Process.Manager.Ops
use x.Process.Manager.Slots.{slot-ok, get_elem?-put}
use x.Arch.Registry.{kernel_stack_top}
use x.Arch.Slots.{vacate}
use x.Arch.UserExecution.{UserExecutionBinding, UserExecutionRegistry, user_task}
use x.Arch.UserRegistry
use x.Arch.CpuLocal.{Cpu, set_current_task, set_kernel_stack_top}
use x.Arch.System.{SystemRuntime, SystemRuntimeError, scheduler, with_scheduler}
use x.Arch.System.Steps.{
  drop_execution, commit_noted, exitable, release_task, commit_exit, commit_pending_exit,
  consume_resume,
}

-- A ready front of the queue takes over from the running task.
pub terminate-queue :
    (s : Scheduler) (id next : TaskId) (q : List TaskId)
    → Inv s
    → CurrentRuns s
    → s.current ≡ some id
    → s.ready.queue ≡ q
    → next_ready s ≡ some next
    → (id == next) ≡ false
    → (u : TaskControlBlock) × (rest : List TaskId) × (terminate_current_to s next
        ≡ (handed_over s id next u rest, ok next))
unfolding next_ready RunQueue.peek terminate_current_to
terminate-queue s id next [] v c now q front other = absurd (ground arith)
terminate-queue s id next (x ∷ rest) v c now q front other =
    let first : x ≡ next = ground arith in
    let q' : s.ready.queue ≡ next ∷ rest = rw first at q in
    let (u, there, is_ready) = front_ready s next rest v q' in
    let runs = c id now in
    let peeks = peek-cons s next rest next q' ∙ (task_id_eq_iff next next).1 refl in
    elim (Option-cases (task s id)) [
      | inl gone ↦ absurd (ground arith)
      | inr (t, here) ↦
          let r : (t.state == running) ≡ true = ground arith in
          (
            u,
            rest,
            ap (λ c. terminate s c next) now
                ∙ (terminate_front s id next t u other peeks there is_ready here r
                    ∙ retire_current_lem s id next t u rest here r other q' there is_ready),
          )
    ]

pub slot-state :
    (m : ProcessManager) (p : ProcessId) (st : ProcessState)
    → Ops.state m p ≡ ok st
    → (c : Slot) × (slot m p ≡ ok c) × (c.state ≡ some st)
unfolding Ops.state
slot-state m p st h = elim (Result-cases (slot m p)) [
  | inr (e, bad) ↦ absurd (ground arith)
  | inl (c, good) ↦ (c, good, ground arith)
]

slot-binding :
    (m : ProcessManager) (p : ProcessId) (c : Slot) (b : ProcessExecutionBinding)
    → slot m p ≡ ok c
    → Ops.binding m p ≡ ok (some b)
    → c.binding ≡ some b
unfolding Ops.binding
slot-binding m p c b h k = ground arith

-- A write to the slot of a live process, as seen through the same identity and through another.
pub slot-write :
    (m : ProcessManager) (p : ProcessId) (c d : Slot)
    → slot m p ≡ ok c
    → d.generation ≡ c.generation
    → is_some d.state ≡ true
    → slot (put m p.index d) p ≡ ok d
unfolding slot
slot-write m p c d h same live =
    let (at, own, _) = slot-ok m p c h in
    rw (get_elem?-put m p.index p.index d (get_elem?-lt m.slots p.index at)) (ground arith)

slot-write_other :
    (m : ProcessManager) (p q : ProcessId) (c d e : Slot)
    → slot m p ≡ ok c
    → slot m q ≡ ok e
    → nat_eq p.index q.index ≡ false
    → slot (put m p.index d) q ≡ ok e
unfolding slot
slot-write_other m p q c d e h k apart =
    rw (get_elem?-put m p.index q.index d (get_elem?-lt m.slots p.index (slot-ok m p c h).0), apart)
      k

slots_same :
    (m : ProcessManager) (i j : ℕ) (c e : Slot)
    → i ≡ j
    → get_elem? m.slots i ≡ some c
    → get_elem? m.slots j ≡ some e
    → c.state ≡ e.state
slots_same m i j c e same a b =
    let b' : get_elem? m.slots i ≡ some e = rw (← same) at b in
    let one : c ≡ e = ground arith in ap (λ (s : Slot). s.state) one

-- Processes in different states stand in different slots.
slots_apart :
    (m : ProcessManager) (p q : ProcessId) (c e : Slot)
    → slot m p ≡ ok c
    → slot m q ≡ ok e
    → c.state ≢ e.state
    → nat_eq p.index q.index ≡ false
slots_apart m p q c e h k other = elim (Bool-cases (nat_eq p.index q.index)) [
  | inr apart ↦ apart
  | inl same ↦ absurd (
      other
        (slots_same m p.index q.index c e (ground arith) (slot-ok m p c h).0 (slot-ok m q e k).0))
]

start-ok :
    (m : ProcessManager) (q : ProcessId) (d : Slot) (b : ProcessExecutionBinding)
    → slot m q ≡ ok d
    → d.state ≡ some Identity.ready
    → d.binding ≡ some b
    → Ops.start m q ≡ (put m q.index (record d { state = some Identity.running }), ok tt)
unfolding Ops.start is_some
start-ok m q d b h st bound = rw (h, st, bound, Ops.start) refl

pub exit-ok :
    (m : ProcessManager) (p : ProcessId) (c : Slot)
    → slot m p ≡ ok c
    → c.state ≡ some Identity.running
    → Ops.exit m p ≡ (put m p.index (record c { state = some exited; exit_code = some 0 }), ok tt)
unfolding Ops.exit Ops.request_exit
exit-ok m p c h st = rw (h, st, Ops.request_exit) refl

pub state-slot :
    (m : ProcessManager) (p : ProcessId) (c : Slot) (st : ProcessState)
    → slot m p ≡ ok c
    → c.state ≡ some st
    → Ops.state m p ≡ ok st
unfolding Ops.state
state-slot m p c st h k = rw (h, k, Ops.state) refl

exit_code-slot :
    (m : ProcessManager) (p : ProcessId) (c : Slot)
    → slot m p ≡ ok c
    → Ops.exit_code m p ≡ ok c.exit_code
unfolding Ops.exit_code
exit_code-slot m p c h = rw (h, Ops.exit_code) refl

-- One process starts, and another ends, with the exit code 0.
pub processes_lem :
    (m : ProcessManager) (p q : ProcessId) (b : ProcessExecutionBinding)
    → Ops.state m p ≡ ok Identity.running
    → Ops.state m q ≡ ok Identity.ready
    → Ops.binding m q ≡ ok (some b)
    → (m1 : ProcessManager) × (m2 : ProcessManager) × (Ops.start m q ≡ (m1, ok tt))
      × (Ops.exit m1 p ≡ (m2, ok tt))
      × (Ops.state m2 p ≡ ok exited)
      × (Ops.exit_code m2 p ≡ ok (some 0))
      × (Ops.state m2 q ≡ ok Identity.running)
unfolding is_some
processes_lem m p q b hp hq hb =
    let (c, at_p, run) = slot-state m p Identity.running hp in
    let (d, at_q, wait) = slot-state m q Identity.ready hq in
    let bound = slot-binding m q d b at_q hb in
    let d' : Slot = record d { state = some Identity.running } in
    let c' : Slot = record c { state = some exited; exit_code = some 0 } in
    let m1 = put m q.index d' in
    let m2 = put m1 p.index c' in
    let apart = slots_apart m q p d c at_q at_p (λ e. ground arith) in
    let p1 : slot m1 p ≡ ok c = slot-write_other m q p d d' c at_q at_p apart in
    let q1 : slot m1 q ≡ ok d' = slot-write m q d d' at_q refl refl in
    let p2 : slot m2 p ≡ ok c' = slot-write m1 p c c' p1 refl refl in
    let q2 : slot m2 q ≡ ok d' = slot-write_other m1 p q c c' d' p1 q1 (ground arith) in
    (
      m1,
      m2,
      start-ok m q d b at_q wait bound,
      exit-ok m1 p c p1 run,
      state-slot m2 p c' exited p2 refl,
      exit_code-slot m2 p c' p2,
      state-slot m2 q d' Identity.running q2 refl,
    )

-- The process has ended with the exit code 0; the successor runs, and the scheduler, the owner and the
-- processor agree on it, with the top of its own kernel stack.
abbrev pub Ended : SystemRuntime → ProcessId → UserExecutionBinding → SystemRuntime → Cpu → Type 0
Ended s process t s' cpu' =
    (Ops.state s'.processes process ≡ ok exited)
    × (Ops.exit_code s'.processes process ≡ ok (some 0))
    × (Ops.state s'.processes t.process ≡ ok Identity.running)
    × ((scheduler s').current ≡ some t.task)
    × (s'.current_process ≡ some t.process)
    × (s'.pending_exit ≡ none)
    × (cpu'.local.current_task ≡ some t.task)
    × (kernel_stack_top s.runtime.manager.executions t.task ≡ some cpu'.kernel_stack_top)

-- What the end of a commit changes, and what it leaves.
abbrev pub Released :
    SystemRuntime
    → UserExecutionBinding
    → ℕ
    → Scheduler
    → SystemRuntime × Cpu × Result SystemRuntimeError UserExecutionBinding
    → Type 0
Released s t top s3 r =
    (s' : SystemRuntime) × (cpu' : Cpu) × (r ≡ (s', cpu', ok t))
    × (s'.processes ≡ s.processes)
    × (scheduler s' ≡ s3)
    × (s'.current_process ≡ some t.process)
    × (s'.pending_exit ≡ none)
    × (cpu'.local.current_task ≡ some t.task)
    × (cpu'.kernel_stack_top ≡ top)

remove-some :
    (r : UserExecutionRegistry) (id : TaskId) (b : UserExecutionBinding)
    → UserRegistry.get r id ≡ some b
    → UserRegistry.remove r id ≡ (record { entries = vacate user_task r.entries id }, ok b)
unfolding UserRegistry.remove
remove-some r id b bound = rw (bound, UserRegistry.remove) refl

pub release_task-Released :
    (s : SystemRuntime) (cpu : Cpu) (id : TaskId) (b t : UserExecutionBinding) (h : ExecutionHandle)
    (top : ℕ) (s3 : Scheduler)
    → terminate_current_to (scheduler s) t.task ≡ (s3, ok t.task)
    → UserRegistry.get s.userspace id ≡ some b
    → Released s t top s3 (release_task s cpu id t h top)
unfolding release_task set_current_task set_kernel_stack_top
release_task-Released s cpu id b t h top s3 handed bound =
    let s1 = with_scheduler s s3 in
    let kept : UserExecutionRegistry = record {
      entries = vacate user_task s.userspace.entries id;
    } in
    let removed = remove-some s.userspace id b bound in
    let s2 = drop_execution (record s1 { userspace = kept }) h in
    let s' : SystemRuntime = record (consume_resume s2 t) {
      current_process = some t.process;
      pending_exit = none;
    } in
    let cpu' = set_current_task (set_kernel_stack_top cpu top) (some t.task) in
    (
      s',
      cpu',
      rw (handed, release_task) (rw removed (rw (handed, removed) refl)),
      refl,
      refl,
      refl,
      refl,
      refl,
      refl,
    )

-- The steps of a commit, once the checks have passed.
pub commit_steps :
    (s : SystemRuntime) (cpu : Cpu) (process : ProcessId) (id : TaskId) (code : ℕ)
    (t : UserExecutionBinding) (h : ExecutionHandle) (top : ℕ) (m1 m2 : ProcessManager)
    → s.pending_exit ≡ some (process, id, code)
    → exitable s process id ≡ ok (t, h, top)
    → Ops.start s.processes t.process ≡ (m1, ok tt)
    → Ops.exit m1 process ≡ (m2, ok tt)
    → commit_pending_exit s cpu ≡ release_task (record s { processes = m2 }) cpu id t h top
unfolding commit_pending_exit commit_exit
commit_steps s cpu process id code t h top m1 m2 pending checked started ended =
    ap (λ noted. commit_noted s cpu noted) pending
    ∙ rw (checked, commit_noted)
        (rw (started, commit_exit) (rw (started, ended) (rw (started, ended) refl)))
