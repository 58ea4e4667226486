-- ===== src/Scheduler/Preservation/Ready.antt =====
-- `make_ready`, `attach_execution` and `destroy_created` keep the invariant; what they do on each
-- branch.
use x.Base.{
  ◌≡◌, refl, Bool, true, false, ◌||◌, Option, none, some, [], ◌∷◌, ◌++◌, ◌==◌, if◌then◌else◌, arith,
  contains, inl, inr, Bool-cases, Option-cases, ok, err, get_elem?, is_some, ◌&&◌,
}
use x.Scheduler.Task.{
  TaskId, TaskId_Eq, TaskState_Eq, created, ready, running, blocked, TaskControlBlock, allowed,
  attach, for_task,
}
use x.Scheduler.State.{
  Scheduler, put, find, task, change, task_not_found, execution_already_attached,
}
use x.Scheduler.Slots.{task-eq_some}
use x.Scheduler.Ops.{make_ready, attach_execution, destroy_created}
use x.Scheduler.Invariant.{Inv, in_state, to_state, enqueue-Inv, update-Inv, remove-Inv}

-- The scheduler in which a task was made ready.
abbrev pub enqueued : Scheduler → TaskId → TaskControlBlock → Scheduler
enqueued s id t = record s {
  tasks = put s.tasks id (some (to_state ready t));
  ready = record { queue = s.ready.queue ++ id ∷ [] };
}

pub make_ready-none :
    (s : Scheduler) (id : TaskId) → task s id ≡ none → make_ready s id ≡ (s, false)
unfolding make_ready change
make_ready-none s id h = ground arith

pub make_ready-some :
    (s : Scheduler) (id : TaskId) (t : TaskControlBlock)
    → task s id ≡ some t
    → make_ready s id ≡ (
        if contains s.ready.queue id
        then (s, false)
        else if allowed t.state ready
        then (enqueued s id t, true)
        else (s, false))
unfolding make_ready change
make_ready-some s id t h = ground arith

pub make_ready-Inv : (s : Scheduler) (id : TaskId) → Inv s → Inv (make_ready s id).0
make_ready-Inv s id v = elim (Option-cases (task s id)) [
  | inl e ↦ rw (make_ready-none s id e) v
  | inr (t, e) ↦ rw (make_ready-some s id t e) (elim (Bool-cases (contains s.ready.queue id)) [
    | inl old ↦ rw old v
    | inr new ↦ rw new (elim (Bool-cases (allowed t.state ready)) [
      | inl can ↦ rw can (enqueue-Inv s id t v e (ground (arith, v.queued id)))
      | inr cannot ↦ rw cannot v
    ])
  ])
]

-- `make_ready` succeeds exactly for a task that is created, running or blocked.
pub make_ready_result :
    (s : Scheduler) (id : TaskId)
    → Inv s
    → (make_ready s id).1 ≡ (
        in_state created (task s id)
        || in_state running (task s id)
        || in_state blocked (task s id))
make_ready_result s id v = elim (Option-cases (task s id)) [
  | inl e ↦ rw (make_ready-none s id e, e)
  | inr (t, e) ↦ ground (arith, make_ready-some s id t e, v.queued id)
]

pub attach_execution-none :
    (s : Scheduler) (id : TaskId)
    → task s id ≡ none
    → attach_execution s id ≡ (s, err task_not_found)
unfolding attach_execution
attach_execution-none s id h = ground arith

abbrev pub attached : TaskControlBlock → TaskControlBlock
attached t = record t { execution = some (for_task t.id) }

pub attach_execution-some :
    (s : Scheduler) (id : TaskId) (t : TaskControlBlock)
    → task s id ≡ some t
    → attach_execution s id ≡ (
        if is_some t.execution
        then (s, err execution_already_attached)
        else (record s { tasks = put s.tasks id (some (attached t)) }, ok (for_task t.id)))
unfolding attach_execution attach is_some
attach_execution-some s id t h = ground arith

pub attach_execution-Inv : (s : Scheduler) (id : TaskId) → Inv s → Inv (attach_execution s id).0
attach_execution-Inv s id v = elim (Option-cases (task s id)) [
  | inl e ↦ rw (attach_execution-none s id e) v
  | inr (t, e) ↦ rw (attach_execution-some s id t e) (elim (Bool-cases (is_some t.execution)) [
    | inl old ↦ rw old v
    | inr new ↦ rw new (update-Inv s id t v e (attached t) (task-eq_some s id e).1 refl)
  ])
]

abbrev pub removable : Option TaskControlBlock → Bool
removable none = false
removable (some t) = t.state == created && is_some t.execution

-- `destroy_created` frees the slot of a created task that has an execution, and else does nothing.
pub destroy_created_lem :
    (s : Scheduler) (id : TaskId)
    → (destroy_created s id).0
      ≡ (if removable (task s id) then record s { tasks = put s.tasks id none } else s)
unfolding destroy_created find is_some
destroy_created_lem s id = elim (Option-cases (get_elem? s.tasks id.index)) [
  | inl e ↦ rw e
  | inr (slot, e) ↦ rw e (ground arith)
]

pub destroy_created-Inv : (s : Scheduler) (id : TaskId) → Inv s → Inv (destroy_created s id).0
destroy_created-Inv s id v = rw (destroy_created_lem s id) (elim (Option-cases (task s id)) [
  | inl e ↦ rw e v
  | inr (t, e) ↦ elim (Bool-cases (removable (task s id))) [
    | inl r ↦ rw r (remove-Inv s id t v e (ground arith))
    | inr k ↦ rw k v
  ]
])
