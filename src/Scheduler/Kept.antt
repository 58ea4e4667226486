-- ===== src/Scheduler/Kept.antt =====
-- No operation but creation changes a generation or makes a task appear.
use x.Base.{
  ℕ, ◌≡◌, ◌∙◌, refl, Option, none, some, List, [], ◌∷◌, ◌==◌, arith, contains, inl, inr, Bool-cases,
  Option-cases, is_some,
}
use x.Scheduler.Task.{
  TaskId, TaskId_Eq, TaskControlBlock, TaskState, TaskState_Eq, ready, running, blocked, allowed,
  task_id_eq_iff,
}
use x.Scheduler.RunQueue.{RunQueue}
use x.Scheduler.State.{Scheduler, Slot, new, task, put}
use x.Scheduler.Ops.{
  attach_execution, destroy_created, make_ready, terminate_current_to, schedule_next, requeue,
  dispatch_from,
}
use x.Scheduler.Waiting.{
  block_current_on, block_current, wake_one, sleep_current_until, expire_sleepers, exit_current,
  wake, wake_all, wake_from,
}
use x.Scheduler.SleepQueue
use x.Scheduler.SleepQueue.{SleepQueue}
use x.Scheduler.WaitQueue.{WaitQueue}
use x.Scheduler.Slots.{task-write, task-clear, task-eq_some}
use x.Scheduler.Invariant.{Inv, to_state}
use x.Scheduler.Preservation.Ready.{
  make_ready-none, make_ready-some, attach_execution-none, attach_execution-some, attached,
  removable, destroy_created_lem,
}
use x.Scheduler.Preservation.Dispatch.{
  dispatch_from-nil, dispatch_from-cons, front_ready, requeue_kept, requeue_moved, requeue-Requeued,
}
use x.Scheduler.Preservation.Exit.{
  exit_current-none, exit_current-some, block_current-none, block_current-some, runs, departed,
}
use x.Scheduler.Preservation.Exit.Terminate.{terminate_current_to-AllOrNothing, still_there}
use x.Scheduler.Preservation.Wait.{
  wake-kept, wake-moved, wake-Wakes, WakesFirst, wake_from-WakesFirst,
}
use x.Scheduler.Preservation.Block.{
  Blocks, block_current_on-BlocksOrNot, sleep_current_until-BlocksOrNot,
}

-- No generation changes, and no task appears.
pub record Kept (s s' : Scheduler) : Type 0 where
  pub generations : s'.generations ≡ s.generations
  pub absent : (j : TaskId) → task s j ≡ none → task s' j ≡ none

Kept-refl : (s : Scheduler) → Kept s s
Kept-refl s = record { generations = refl; absent = λ j h. h }

Kept-trans : {s t u : Scheduler} → Kept s t → Kept t u → Kept s u
Kept-trans p q = record {
  generations = q.generations ∙ p.generations;
  absent = λ j h. q.absent j (p.absent j h);
}

abbrev with_tasks : Scheduler → List Slot → RunQueue → Option TaskId → Scheduler
with_tasks s ts q c = record s { tasks = ts; ready = q; current = c }

module _ (s : Scheduler) (id : TaskId) (t : TaskControlBlock) (e : task s id ≡ some t)
    (q : RunQueue) (c : Option TaskId) where
  put-Kept :
      (t' : TaskControlBlock) → t'.id ≡ id → Kept s (with_tasks s (put s.tasks id (some t')) q c)
  put-Kept t' own = record {
    generations = refl;
    absent = λ j h. ground (arith, task-write s id t' j e own, task_id_eq_iff id j);
  }

  clear-Kept : Kept s (with_tasks s (put s.tasks id none) q c)
  clear-Kept = record { generations = refl; absent = λ j h. ground (arith, task-clear s id j e) }

  moved-Kept : (st : TaskState) → Kept s (with_tasks s (put s.tasks id (some (to_state st t))) q c)
  moved-Kept st = put-Kept (to_state st t) (task-eq_some s id e).1

pub make_ready-Kept : (s : Scheduler) (id : TaskId) → Kept s (make_ready s id).0
make_ready-Kept s id = elim (Option-cases (task s id)) [
  | inl e ↦ rw (make_ready-none s id e) (Kept-refl s)
  | inr (t, e) ↦ rw (make_ready-some s id t e) (elim (Bool-cases (contains s.ready.queue id)) [
    | inl old ↦ rw old (Kept-refl s)
    | inr new ↦ rw new (elim (Bool-cases (allowed t.state ready)) [
      | inl can ↦ rw can (moved-Kept s id t e _ _ ready)
      | inr cannot ↦ rw cannot (Kept-refl s)
    ])
  ])
]

pub attach_execution-Kept : (s : Scheduler) (id : TaskId) → Kept s (attach_execution s id).0
attach_execution-Kept s id = elim (Option-cases (task s id)) [
  | inl e ↦ rw (attach_execution-none s id e) (Kept-refl s)
  | inr (t, e) ↦ rw (attach_execution-some s id t e) (elim (Bool-cases (is_some t.execution)) [
    | inl old ↦ rw old (Kept-refl s)
    | inr new ↦ rw new (put-Kept s id t e s.ready s.current (attached t) (task-eq_some s id e).1)
  ])
]

pub destroy_created-Kept : (s : Scheduler) (id : TaskId) → Kept s (destroy_created s id).0
destroy_created-Kept s id = rw (destroy_created_lem s id) (elim (Option-cases (task s id)) [
  | inl e ↦ rw e (Kept-refl s)
  | inr (t, e) ↦ elim (Bool-cases (removable (task s id))) [
    | inl r ↦ rw r (clear-Kept s id t e s.ready s.current)
    | inr k ↦ rw k (Kept-refl s)
  ]
])

pub exit_current-Kept : (s : Scheduler) → Inv s → Kept s (exit_current s).0
exit_current-Kept s v = elim (Option-cases s.current) [
  | inl e ↦ rw (exit_current-none s e) (Kept-refl s)
  | inr (id, e) ↦ rw (exit_current-some s id v e) (elim (Option-cases (task s id)) [
    | inl f ↦ rw f (Kept-refl s)
    | inr (t, f) ↦ elim (Bool-cases (runs (task s id))) [
      | inl r ↦ rw r (clear-Kept s id t f s.ready none)
      | inr r ↦ rw r (Kept-refl s)
    ]
  ])
]

pub block_current-Kept : (s : Scheduler) → Inv s → Kept s (block_current s).0
block_current-Kept s v = elim (Option-cases s.current) [
  | inl e ↦ rw (block_current-none s e) (Kept-refl s)
  | inr (id, e) ↦ elim (Option-cases (task s id)) [
    | inl f ↦ absurd (cc (v.current_live id e, f))
    | inr (t, f) ↦ rw (block_current-some s id t e f) (elim (Bool-cases (t.state == running)) [
      | inl r ↦ rw r (moved-Kept s id t f s.ready none blocked)
      | inr r ↦ rw r (Kept-refl s)
    ])
  ]
]

pub Blocks-Kept : (s : Scheduler) (id : TaskId) (r : Scheduler) → Blocks s id r → Kept s r
Blocks-Kept s id r (c, (t, e, run, out)) = rw out (moved-Kept s id t e s.ready none blocked)

pub terminate_current_to-Kept :
    (s : Scheduler) (id : TaskId) → Inv s → Kept s (terminate_current_to s id).0
terminate_current_to-Kept s id v = elim (terminate_current_to-AllOrNothing s id v) [
  | inl (e, same) ↦ rw same (Kept-refl s)
  | inr (c, u, rest, cur, r, q, f, k, out) ↦ elim (Option-cases (task s c)) [
    | inl g ↦ absurd (cc (r, g))
    | inr (t, g) ↦ rw out (
        Kept-trans (clear-Kept s c t g s.ready none)
          (moved-Kept (departed s c) id u (still_there s c id u v r q f) _ _ running))
  ]
]

pub requeue-Kept :
    (s : Scheduler) (c : Option TaskId) → s.current ≡ c → Inv s → Kept s (requeue s c)
requeue-Kept s none e v = unfold requeue in Kept-refl s
requeue-Kept s (some id) e v = elim (Option-cases (task s id)) [
  | inl f ↦ absurd (cc (v.current_live id e, f))
  | inr (t, f) ↦ elim (Bool-cases (t.state == running)) [
    | inl r ↦
        rw (requeue_moved s id t f r (ground (arith, v.queued id))) (moved-Kept s id t f _ _ ready)
    | inr r ↦ rw (requeue_kept s id (ground arith)) (Kept-refl s)
  ]
]

pub dispatch_from-Kept :
    (s : Scheduler) (p : Option TaskId) (q : List TaskId)
    → s.ready.queue ≡ q
    → Inv s
    → Kept s (dispatch_from s p).0
dispatch_from-Kept s p [] e v =
    rw (dispatch_from-nil s p e) (record { generations = refl; absent = λ j h. h })
dispatch_from-Kept s p (x ∷ rest) e v =
    let (t, there, r) = front_ready s x rest v e in
    rw (dispatch_from-cons s p x rest t e there r) (moved-Kept s x t there _ _ running)

pub schedule_next-Kept : (s : Scheduler) → Inv s → Kept s (schedule_next s).0
unfolding schedule_next
schedule_next-Kept s v =
    let (v', _, _) = requeue-Requeued s s.current refl v in
    Kept-trans (requeue-Kept s s.current refl v)
      (dispatch_from-Kept (requeue s s.current) s.current _ refl v')

pub block_current_on-Kept : (s : Scheduler) (w : WaitQueue) → Kept s (block_current_on s w).0
block_current_on-Kept s w = elim (block_current_on-BlocksOrNot s w) [
  | inl (e, out) ↦ rw out (Kept-refl s)
  | inr (id, s', b, out) ↦ rw out (Blocks-Kept s id s' b)
]

pub sleep_current_until-Kept :
    (s : Scheduler) (d : ℕ) (q : SleepQueue) → Kept s (sleep_current_until s d q).0
sleep_current_until-Kept s d q = elim (sleep_current_until-BlocksOrNot s d q) [
  | inl (e, out) ↦ rw out (Kept-refl s)
  | inr (id, s', b, out) ↦ rw out (Blocks-Kept s id s' b)
]

wake-Kept : (s : Scheduler) (id : TaskId) → Inv s → Kept s (wake s id).0
wake-Kept s id v = elim (Option-cases (task s id)) [
  | inl e ↦ rw (wake-kept s id (rw e refl)) (Kept-refl s)
  | inr (t, e) ↦ elim (Bool-cases (t.state == blocked)) [
    | inl b ↦
        rw (wake-moved s id t e b (ground (arith, v.queued id))) (moved-Kept s id t e _ _ ready)
    | inr b ↦ rw (wake-kept s id (rw e b)) (Kept-refl s)
  ]
]

wake_all-Kept : (s : Scheduler) (ids : List TaskId) → Inv s → Kept s (wake_all s ids).0
unfolding wake_all
wake_all-Kept s [] v = Kept-refl s
wake_all-Kept s (id ∷ ids) v =
    Kept-trans (wake-Kept s id v) (wake_all-Kept (wake s id).0 ids (wake-Wakes s id v).0)

pub expire_sleepers-Kept :
    (s : Scheduler) (now : ℕ) (q : SleepQueue) → Inv s → Kept s (expire_sleepers s now q).0
unfolding expire_sleepers
expire_sleepers-Kept s now q v = wake_all-Kept s (SleepQueue.expire_until q now).1 v

WakesFirst-Kept :
    (s : Scheduler) (ws : List TaskId) (r : Scheduler × List TaskId × Option TaskId)
    → WakesFirst s ws r
    → Kept s r.0
WakesFirst-Kept s [] r h = rw h (Kept-refl s)
WakesFirst-Kept s (id ∷ rest) r (inl (_, h)) = WakesFirst-Kept s rest r h
WakesFirst-Kept s (id ∷ rest) r (inr (t, e, b, h)) = rw h (moved-Kept s id t e _ _ ready)

pub wake_one-Kept : (s : Scheduler) (w : WaitQueue) → Inv s → Kept s (wake_one s w).0
unfolding wake_one
wake_one-Kept s w v =
    WakesFirst-Kept s w.queue (wake_from s w.queue) (wake_from-WakesFirst s w.queue v)
