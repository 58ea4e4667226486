-- ===== src/Arch/KernelTask/Exit.antt =====
-- What is left when the current kernel task exits.
use x.Base.{
  ◌≡◌, ◌∙◌, refl, true, none, some, ◌==◌, is_some, if◌then◌else◌, arith, Option-cases, inl, inr,
}
use x.Scheduler.Task.{TaskId, TaskId_Eq, task_id_eq_iff, for_task, running}
use x.Scheduler.State.{task, execution}
use x.Scheduler.Waiting
use x.Scheduler.Slots.{task-clear}
use x.Scheduler.SleepQueue
use x.Scheduler.SleepQueue.{SleepQueue}
use x.Scheduler.Invariant.{in_state}
use x.Scheduler.Preservation.Exit.{departed, departed-Inv, exit_current-some}
use x.Arch.Slots.{find_entry-vacate, Unique, Unique-vacate}
use x.Arch.Registry
use x.Arch.Registry.{ExecutionRegistry, get, task_of}
use x.Arch.KernelTask.{KernelTaskManager, exit_current}
use x.Arch.KernelTask.Laws.{Owned}

-- The coordinator after the current task has left, and taken its binding with it.
abbrev left_by : KernelTaskManager → TaskId → KernelTaskManager
left_by m id = record m {
  scheduler = departed m.scheduler id;
  sleepers = (SleepQueue.remove m.sleepers id).0;
  executions = (Registry.remove m.executions (for_task id)).0;
}

exit_steps :
    (m : KernelTaskManager) (id : TaskId)
    → m.scheduler.current ≡ some id
    → execution m.scheduler id ≡ some (for_task id)
    → Waiting.exit_current m.scheduler ≡ (departed m.scheduler id, true)
    → exit_current m ≡ (left_by m id, (Registry.remove m.executions (for_task id)).1)
unfolding exit_current
exit_steps m id current attached left = rw (current, attached, left, exit_current) refl

remove-result :
    (r : ExecutionRegistry) (id : TaskId)
    → (Registry.remove r (for_task id)).1 ≡ Registry.contains r (for_task id)
unfolding Registry.remove Registry.contains is_some
remove-result r id = ground arith

-- A removal takes the binding of the task away, if there is one, and no other.
remove_lem :
    (r : ExecutionRegistry) (id : TaskId)
    → Unique task_of r.entries
    → ((j : TaskId)
        → get (Registry.remove r (for_task id)).0 j ≡ (if id == j then none else get r j))
      × Unique task_of (Registry.remove r (for_task id)).0.entries
unfolding Registry.remove get is_some
remove_lem r id u = elim (Option-cases (get r id)) [
  | inl none_bound ↦ (λ j. ground (arith, task_id_eq_iff id j), rw (none_bound, Registry.remove) u)
  | inr (b, bound) ↦ (
    λ j. rw (bound, Registry.remove) (find_entry-vacate task_of r.entries id j u),
    rw (bound, Registry.remove) (Unique-vacate task_of r.entries id u),
  )
]

-- The current task, where it runs, is gone when it exits, and so is its execution binding; the
-- coordinator stays sound. The answer is whether there was a binding: a task that has none leaves the
-- scheduler, and its exit is reported as failed.
pub exit_current_lem :
    (m : KernelTaskManager) (id : TaskId)
    → Owned m
    → m.scheduler.current ≡ some id
    → in_state running (task m.scheduler id) ≡ true
    → execution m.scheduler id ≡ some (for_task id)
    → ((exit_current m).1 ≡ Registry.contains m.executions (for_task id))
      × (task (exit_current m).0.scheduler id ≡ none)
      × (get (exit_current m).0.executions id ≡ none)
      × Owned (exit_current m).0
unfolding get is_some
exit_current_lem m id o current runs attached =
    let left : Waiting.exit_current m.scheduler ≡ (departed m.scheduler id, true) =
      exit_current-some m.scheduler id o.sound current ∙ rw runs refl in
    let (finds, unique) = remove_lem m.executions id o.unique in
    let self : (id == id) ≡ true = (task_id_eq_iff id id).1 refl in
    elim (Option-cases (task m.scheduler id)) [
      | inl gone ↦ absurd (ground arith)
      | inr (t, there) ↦
          let cleared = λ (j : TaskId). task-clear m.scheduler id j there in
          rw (exit_steps m id current attached left) (
            remove-result m.executions id,
            cleared id ∙ rw self refl,
            finds id ∙ rw self refl,
            record {
              sound = departed-Inv m.scheduler id o.sound runs;
              unique = unique;
              live = λ j h. finds j ∙ ground (arith, cleared j, o.live j, h);
            },
          )
    ]
