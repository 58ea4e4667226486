-- ===== src/Scheduler/Preservation/Exit.antt =====
-- `exit_current` and `block_current` keep the invariant.
pub mod Terminate
use x.Base.{
  ◌≡◌, ◌∙◌, refl, ap, Bool, true, false, Option, none, some, List, [], ◌∷◌, ◌==◌, if◌then◌else◌,
  arith, inl, inr, Bool-cases, Option-cases, ok, err, Result, ◌⊎◌,
}
use x.Scheduler.Task.{
  TaskId, TaskId_Eq, TaskState_Eq, ready, running, blocked, TaskControlBlock, task_id_eq_iff,
}
use x.Scheduler.RunQueue
use x.Scheduler.State.{
  Scheduler, put, task, state, SchedulerError, task_not_found, current_task_mismatch,
  successor_not_ready,
}
use x.Scheduler.Slots.{task-clear, task-eq_some}
use x.Scheduler.Ops.{terminate_current_to, retire_current, terminate, is_task}
use x.Scheduler.Waiting.{exit_current, block_current}
use x.Scheduler.Invariant.{Inv, in_state, to_state, exit-Inv, block-Inv, run-Inv}
use x.Scheduler.Preservation.Dispatch.{front_ready, switched}

-- The scheduler that the running task `id` has left.
abbrev pub departed : Scheduler → TaskId → Scheduler
departed s id = record s { tasks = put s.tasks id none; current = none }

pub exit_current-none : (s : Scheduler) → s.current ≡ none → exit_current s ≡ (s, false)
unfolding exit_current
exit_current-none s e = ground arith

abbrev pub runs : Option TaskControlBlock → Bool
runs o = in_state running o

-- `exit_current` removes the current task where it runs, and else changes nothing.
pub exit_current-some :
    (s : Scheduler) (id : TaskId)
    → Inv s
    → s.current ≡ some id
    → exit_current s ≡ (if runs (task s id) then (departed s id, true) else (s, false))
unfolding exit_current
exit_current-some s id v e = elim (Option-cases (task s id)) [
  | inl f ↦ absurd (cc (v.current_live id e, f))
  | inr (t, f) ↦
      let (slot, own) = task-eq_some s id f in
      rw (e, slot) (ground (arith, v.current_live id, task_id_eq_iff t.id id))
]

pub departed-Inv :
    (s : Scheduler) (id : TaskId) → Inv s → runs (task s id) ≡ true → Inv (departed s id)
departed-Inv s id v r = elim (Option-cases (task s id)) [
  | inl f ↦ absurd (cc (r, f))
  | inr (t, f) ↦ exit-Inv s id t v f (ground arith)
]

pub exit_current-Inv : (s : Scheduler) → Inv s → Inv (exit_current s).0
exit_current-Inv s v = elim (Option-cases s.current) [
  | inl e ↦ rw (exit_current-none s e) v
  | inr (id, e) ↦ rw (exit_current-some s id v e) (elim (Bool-cases (runs (task s id))) [
    | inl r ↦ rw r (departed-Inv s id v r)
    | inr r ↦ rw r v
  ])
]

abbrev pub blocked_off : Scheduler → TaskId → TaskControlBlock → Scheduler
blocked_off s id t = record s { tasks = put s.tasks id (some (to_state blocked t)); current = none }

pub block_current-none : (s : Scheduler) → s.current ≡ none → block_current s ≡ (s, false)
unfolding block_current
block_current-none s e = ground arith

pub block_current-some :
    (s : Scheduler) (id : TaskId) (t : TaskControlBlock)
    → s.current ≡ some id
    → task s id ≡ some t
    → block_current s ≡ (if t.state == running then (blocked_off s id t, true) else (s, false))
unfolding block_current
block_current-some s id t e f = ground arith

pub block_current-Inv : (s : Scheduler) → Inv s → Inv (block_current s).0
block_current-Inv s v = elim (Option-cases s.current) [
  | inl e ↦ rw (block_current-none s e) v
  | inr (id, e) ↦ elim (Option-cases (task s id)) [
    | inl f ↦ absurd (cc (v.current_live id e, f))
    | inr (t, f) ↦ rw (block_current-some s id t e f) (elim (Bool-cases (t.state == running)) [
      | inl r ↦ rw r (block-Inv s id t v f r)
      | inr r ↦ rw r v
    ])
  ]
]
