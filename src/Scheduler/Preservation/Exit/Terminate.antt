-- ===== src/Scheduler/Preservation/Exit/Terminate.antt =====
-- `terminate_current_to` keeps the invariant, and is all or nothing.
use x.Base.{
  ◌≡◌, ◌∙◌, refl, ap, true, false, Option, none, some, List, [], ◌∷◌, ◌==◌, arith, inl, inr,
  Bool-cases, Option-cases, ok, err, Result, ◌⊎◌,
}
use x.Scheduler.Task.{
  TaskId, TaskId_Eq, TaskState_Eq, ready, running, TaskControlBlock, task_id_eq_iff,
}
use x.Scheduler.RunQueue
use x.Scheduler.State.{
  Scheduler, task, state, SchedulerError, task_not_found, current_task_mismatch,
  successor_not_ready,
}
use x.Scheduler.Slots.{task-clear, task-eq_some}
use x.Scheduler.Ops.{terminate_current_to, retire_current, terminate, is_task}
use x.Scheduler.Invariant.{Inv, run-Inv}
use x.Scheduler.Preservation.Dispatch.{front_ready, switched}
use x.Scheduler.Preservation.Exit.{departed, runs, departed-Inv}

-- The scheduler after a termination in favour of the task `next`.
abbrev pub handed_over : Scheduler → TaskId → TaskId → TaskControlBlock → List TaskId → Scheduler
handed_over s id next u rest = switched (departed s id) next u rest

pub retire_current_lem :
    (s : Scheduler) (id next : TaskId) (t u : TaskControlBlock) (rest : List TaskId)
    → task s id ≡ some t
    → (t.state == running) ≡ true
    → (id == next) ≡ false
    → s.ready.queue ≡ next ∷ rest
    → task s next ≡ some u
    → (u.state == ready) ≡ true
    → retire_current s id next ≡ (handed_over s id next u rest, ok next)
unfolding retire_current
retire_current_lem s id next t u rest e r ne q f k =
    let cleared : task (departed s id) next ≡ some u = ground (arith, task-clear s id next e) in
    ground (
      arith,
      task-eq_some s id e,
      task-eq_some (departed s id) next cleared,
      task_id_eq_iff next next,
    )

-- The two outcomes of a termination.
abbrev pub AllOrNothing : Scheduler → TaskId → Scheduler × Result SchedulerError TaskId → Type 0
AllOrNothing s next r =
    ((e : SchedulerError) × (r ≡ (s, err e)))
    ⊎ ((id : TaskId) × (u : TaskControlBlock) × (rest : List TaskId) × (s.current ≡ some id)
        × (runs (task s id) ≡ true)
        × (s.ready.queue ≡ next ∷ rest)
        × (task s next ≡ some u)
        × (u.state ≡ ready)
        × (r ≡ (handed_over s id next u rest, ok next)))

terminate_self :
    (s : Scheduler) (id next : TaskId)
    → (id == next) ≡ true
    → terminate s (some id) next ≡ (s, err current_task_mismatch)
terminate_self s id next h = rw h

terminate_behind :
    (s : Scheduler) (id next : TaskId)
    → (id == next) ≡ false
    → is_task (RunQueue.peek s.ready) next ≡ false
    → terminate s (some id) next ≡ (s, err successor_not_ready)
terminate_behind s id next h k = rw (h, k)

terminate_stopped :
    (s : Scheduler) (id next : TaskId) (t u : TaskControlBlock)
    → (id == next) ≡ false
    → is_task (RunQueue.peek s.ready) next ≡ true
    → task s next ≡ some u
    → (u.state == ready) ≡ true
    → task s id ≡ some t
    → (t.state == running) ≡ false
    → terminate s (some id) next ≡ (s, err task_not_found)
unfolding state
terminate_stopped s id next t u h k f fr g gr =
    ground (arith, task-eq_some s id g, task-eq_some s next f)

pub terminate_front :
    (s : Scheduler) (id next : TaskId) (t u : TaskControlBlock)
    → (id == next) ≡ false
    → is_task (RunQueue.peek s.ready) next ≡ true
    → task s next ≡ some u
    → (u.state == ready) ≡ true
    → task s id ≡ some t
    → (t.state == running) ≡ true
    → terminate s (some id) next ≡ retire_current s id next
unfolding state
terminate_front s id next t u h k f fr g gr = ground (
  arith,
  task-eq_some s id g,
  task-eq_some s next f,
  task_id_eq_iff next next,
  task_id_eq_iff id id,
)

pub peek-cons :
    (s : Scheduler) (x : TaskId) (rest : List TaskId) (next : TaskId)
    → s.ready.queue ≡ x ∷ rest
    → is_task (RunQueue.peek s.ready) next ≡ (x == next)
unfolding RunQueue.peek
peek-cons s x rest next q = ground arith

peek-nil :
    (s : Scheduler) (next : TaskId)
    → s.ready.queue ≡ []
    → is_task (RunQueue.peek s.ready) next ≡ false
unfolding RunQueue.peek
peek-nil s next q = ground arith

terminate-front :
    (s : Scheduler) (id next : TaskId) (rest : List TaskId)
    → Inv s
    → s.current ≡ some id
    → (id == next) ≡ false
    → s.ready.queue ≡ next ∷ rest
    → AllOrNothing s next (terminate s (some id) next)
terminate-front s id next rest v c h q =
    let (u, f, k) = front_ready s next rest v q in
    let p : is_task (RunQueue.peek s.ready) next ≡ true =
      peek-cons s next rest next q ∙ (task_id_eq_iff next next).1 refl in
    elim (Option-cases (task s id)) [
      | inl g ↦ absurd (cc (v.current_live id c, g))
      | inr (t, g) ↦ elim (Bool-cases (t.state == running)) [
        | inl r ↦ inr (
          id,
          u,
          rest,
          c,
          ground arith,
          q,
          f,
          ground arith,
          terminate_front s id next t u h p f k g r
              ∙ retire_current_lem s id next t u rest g r h q f k,
        )
        | inr r ↦ inl (task_not_found, terminate_stopped s id next t u h p f k g r)
      ]
    ]

terminate-queue :
    (s : Scheduler) (id next : TaskId) (q : List TaskId)
    → Inv s
    → s.current ≡ some id
    → s.ready.queue ≡ q
    → (id == next) ≡ false
    → AllOrNothing s next (terminate s (some id) next)
terminate-queue s id next [] v e k h =
    inl (successor_not_ready, terminate_behind s id next h (peek-nil s next k))
terminate-queue s id next (x ∷ rest) v e k h = elim (Bool-cases (x == next)) [
  | inl same ↦
      terminate-front s id next rest v e h
        (k ∙ ap (λ (y : TaskId). y ∷ rest) ((task_id_eq_iff x next).0 same))
  | inr other ↦
      inl (successor_not_ready, terminate_behind s id next h (peek-cons s x rest next k ∙ other))
]

terminate-cases :
    (s : Scheduler) (next : TaskId) (c : Option TaskId) (q : List TaskId)
    → Inv s
    → s.current ≡ c
    → s.ready.queue ≡ q
    → AllOrNothing s next (terminate s c next)
terminate-cases s next none q v e k = inl (task_not_found, refl)
terminate-cases s next (some id) q v e k = elim (Bool-cases (id == next)) [
  | inl same ↦ inl (current_task_mismatch, terminate_self s id next same)
  | inr other ↦ terminate-queue s id next q v e k other
]

-- In a scheduler that satisfies the invariant, a termination either returns an error and changes
-- nothing, or the current task, which runs, is removed and the task named, which is ready and at the
-- front of the queue, leaves the queue and becomes the running, current task.
pub terminate_current_to-AllOrNothing :
    (s : Scheduler) (next : TaskId) → Inv s → AllOrNothing s next (terminate_current_to s next)
unfolding terminate_current_to
terminate_current_to-AllOrNothing s next v =
    terminate-cases s next s.current s.ready.queue v refl refl

departed_idle :
    (s : Scheduler) (id : TaskId) (j : TaskId)
    → Inv s
    → s.current ≡ some id
    → runs (task s id) ≡ true
    → runs (task (departed s id) j) ≡ false
departed_idle s id j v c r = elim (Option-cases (task s id)) [
  | inl e ↦ absurd (cc (r, e))
  | inr (t, e) ↦ ground (arith, task-clear s id j e, v.only_current j, task_id_eq_iff id j)
]

handed_over-Inv :
    (s : Scheduler) (id next : TaskId) (u : TaskControlBlock) (rest : List TaskId)
    → Inv s
    → s.current ≡ some id
    → runs (task s id) ≡ true
    → s.ready.queue ≡ next ∷ rest
    → task (departed s id) next ≡ some u
    → Inv (handed_over s id next u rest)
handed_over-Inv s id next u rest v c r q there =
    run-Inv (departed s id) next u (departed-Inv s id v r) there rest q
      (λ j. departed_idle s id j v c r)

pub still_there :
    (s : Scheduler) (id next : TaskId) (u : TaskControlBlock) {rest : List TaskId}
    → Inv s
    → runs (task s id) ≡ true
    → s.ready.queue ≡ next ∷ rest
    → task s next ≡ some u
    → task (departed s id) next ≡ some u
still_there s id next u {rest} v r q f =
    let (w, g, k) = front_ready s next rest v q in
    elim (Option-cases (task s id)) [
      | inl e ↦ absurd (cc (r, e))
      | inr (t, e) ↦ ground (arith, task-clear s id next e, task_id_eq_iff id next)
    ]

pub terminate_current_to-Inv :
    (s : Scheduler) (next : TaskId) → Inv s → Inv (terminate_current_to s next).0
terminate_current_to-Inv s next v = elim (terminate_current_to-AllOrNothing s next v) [
  | inl (e, same) ↦ rw same v
  | inr (id, u, rest, c, r, q, f, k, out) ↦
      rw out (handed_over-Inv s id next u rest v c r q (still_there s id next u v r q f))
]
