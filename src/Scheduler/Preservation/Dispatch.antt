-- ===== src/Scheduler/Preservation/Dispatch.antt =====
-- `schedule_next` keeps the invariant, and what it does on each branch.
pub mod Outcome
use x.Base.{
  ◌≡◌, refl, Bool, true, false, Option, none, some, List, [], ◌∷◌, ◌++◌, ◌==◌, if◌then◌else◌, arith,
  contains, inl, inr, Bool-cases, Option-cases, ◌&&◌, length, nat_eq,
}
use x.Scheduler.Task.{
  TaskId, TaskId_Eq, TaskState_Eq, ready, running, TaskControlBlock, task_id_eq_iff,
}
use x.Scheduler.State.{Scheduler, put, task, state, DispatchDecision}
use x.Scheduler.Slots.{task-write, task-eq_some}
use x.Scheduler.Ops.{requeue, alone, keep_running, switch_next, schedule_next, dispatch_from}
use x.Scheduler.Invariant.{Inv, in_state, to_state, enqueue-Inv, run-Inv, re-Slots, CurrentRuns}
use x.Scheduler.Preservation.Ready.{enqueued}

abbrev pub Idle : Scheduler → Type 0
Idle s = (j : TaskId) → in_state running (task s j) ≡ false

-- Whether the current task runs, and so goes back to the queue.
abbrev pub runs : Scheduler → TaskId → Bool
runs s id = in_state running (task s id)

pub requeue_kept : (s : Scheduler) (id : TaskId) → runs s id ≡ false → requeue s (some id) ≡ s
unfolding requeue state
requeue_kept s id h = ground arith

pub requeue_moved :
    (s : Scheduler) (id : TaskId) (t : TaskControlBlock)
    → task s id ≡ some t
    → (t.state == running) ≡ true
    → contains s.ready.queue id ≡ false
    → requeue s (some id) ≡ enqueued s id t
unfolding requeue state
requeue_moved s id t h r c = ground arith

-- Nothing runs once the current task is back in the queue.
abbrev pub Requeued : Scheduler → Scheduler → Type 0
Requeued s s' = Inv s' × Idle s' × (s'.current ≡ s.current)

enqueued-Idle :
    (s : Scheduler) (id : TaskId) (t : TaskControlBlock)
    → Inv s
    → task s id ≡ some t
    → s.current ≡ some id
    → Idle (enqueued s id t)
enqueued-Idle s id t v e c j = ground (
  arith,
  v.only_current j,
  task_id_eq_iff id j,
  task-write s id (to_state ready t) j e (task-eq_some s id e).1,
)

requeue_current :
    (s : Scheduler) (id : TaskId) → Inv s → s.current ≡ some id → Requeued s (requeue s (some id))
requeue_current s id v c = elim (Option-cases (task s id)) [
  | inl e ↦ absurd (cc (v.current_live id c, e))
  | inr (t, e) ↦ elim (Bool-cases (runs s id)) [
    | inl r ↦
        let run : (t.state == running) ≡ true = ground arith in
        let out : contains s.ready.queue id ≡ false = ground (arith, v.queued id) in
        rw (requeue_moved s id t e run out)
          (enqueue-Inv s id t v e (ground arith), enqueued-Idle s id t v e c, refl)
    | inr r ↦ rw (requeue_kept s id r) (v, (λ j. ground (arith, v.only_current j)), refl)
  ]
]

requeue-none : (s : Scheduler) → Inv s → s.current ≡ none → Requeued s (requeue s none)
unfolding requeue
requeue-none s v c = (v, (λ j. ground (arith, v.only_current j)), refl)

-- The front of the queue runs.
abbrev pub switched : Scheduler → TaskId → TaskControlBlock → List TaskId → Scheduler
switched s id t rest = record s {
  tasks = put s.tasks id (some (to_state running t));
  ready = record { queue = rest };
  current = some id;
}

switch_next-cons :
    (s : Scheduler) (id : TaskId) (rest : List TaskId) (t : TaskControlBlock)
    → s.ready.queue ≡ id ∷ rest
    → task s id ≡ some t
    → (t.state == ready) ≡ true
    → switch_next s ≡ switched s id t rest
unfolding switch_next
switch_next-cons s id rest t q e r = ground arith

switch_next-nil : (s : Scheduler) → s.ready.queue ≡ [] → switch_next s ≡ record s { current = none }
unfolding switch_next
switch_next-nil s q = ground arith

keep_running-cons :
    (s : Scheduler) (id : TaskId) (rest : List TaskId) (t : TaskControlBlock)
    → s.ready.queue ≡ id ∷ rest
    → task s id ≡ some t
    → (t.state == ready) ≡ true
    → keep_running s id ≡ switched s id t rest
unfolding keep_running
keep_running-cons s id rest t q e r = ground arith

contains-front :
    (s : Scheduler) (id : TaskId) (rest : List TaskId)
    → s.ready.queue ≡ id ∷ rest
    → contains s.ready.queue id ≡ true
unfolding contains
contains-front s id rest q = ground (arith, task_id_eq_iff id id)

-- The task at the front of the queue is there and ready.
pub front_ready :
    (s : Scheduler) (id : TaskId) (rest : List TaskId)
    → Inv s
    → s.ready.queue ≡ id ∷ rest
    → (t : TaskControlBlock) × (task s id ≡ some t) × ((t.state == ready) ≡ true)
unfolding contains
front_ready s id rest v q = elim (Option-cases (task s id)) [
  | inl e ↦ absurd (cc (v.queued id, contains-front s id rest q, e))
  | inr (t, e) ↦ (t, e, ground (arith, v.queued id, contains-front s id rest q))
]

alone-nil : (s : Scheduler) (p : Option TaskId) → s.ready.queue ≡ [] → alone s p ≡ false
unfolding alone
alone-nil s none q = refl
alone-nil s (some p) q = ground arith

alone-cons :
    (s : Scheduler) (p x : TaskId) (rest : List TaskId)
    → s.ready.queue ≡ x ∷ rest
    → alone s (some p) ≡ (nat_eq (length rest) 0 && x == p)
unfolding alone
alone-cons s p x rest q = ground arith

pub dispatch_from-nil :
    (s : Scheduler) (p : Option TaskId)
    → s.ready.queue ≡ []
    → dispatch_from s p ≡ (record s { current = none }, record { previous = p; next = none })
dispatch_from-nil s none q = rw (switch_next-nil s q)
dispatch_from-nil s (some p) q = rw (alone-nil s (some p) q, switch_next-nil s q)

-- Whether the previous task is the only one that can run.
abbrev pub only_one : Option TaskId → TaskId → List TaskId → Bool
only_one none x rest = false
only_one (some p) x rest = nat_eq (length rest) 0 && x == p

pub dispatch_from-cons :
    (s : Scheduler) (p : Option TaskId) (x : TaskId) (rest : List TaskId) (t : TaskControlBlock)
    → s.ready.queue ≡ x ∷ rest
    → task s x ≡ some t
    → (t.state == ready) ≡ true
    → dispatch_from s p ≡ (
      switched s x t rest,
      record { previous = p; next = if only_one p x rest then none else some x },
    )
dispatch_from-cons s none x rest t q e r = rw (switch_next-cons s x rest t q e r)
dispatch_from-cons s (some p) x rest t q e r =
    elim (Bool-cases (nat_eq (length rest) 0 && x == p)) [
      | inl same ↦
          let x=p : x ≡ p = (task_id_eq_iff x p).0 (ground arith) in
          rw (alone-cons s p x rest q, same)
            (rw (keep_running-cons s p rest t (rw (← x=p) q) (rw (← x=p) e) r) (rw x=p))
      | inr other ↦ rw (alone-cons s p x rest q, other) (rw (switch_next-cons s x rest t q e r))
    ]

stopped-Inv : (s : Scheduler) → Inv s → Idle s → Inv (record s { current = none })
stopped-Inv s v idle = record {
  slots = re-Slots s s.ready none v.slots;
  distinct = v.distinct;
  queued = v.queued;
  only_current = λ j r. ground (arith, idle j);
  current_live = λ j c. ground arith;
}

dispatch_from-Inv :
    (s : Scheduler) (p : Option TaskId) (q : List TaskId)
    → s.ready.queue ≡ q
    → Inv s
    → Idle s
    → Inv (dispatch_from s p).0 × CurrentRuns (dispatch_from s p).0
dispatch_from-Inv s p [] e v idle =
    rw (dispatch_from-nil s p e) (stopped-Inv s v idle, λ j c. ground arith)
dispatch_from-Inv s p (x ∷ rest) e v idle =
    let (t, there, r) = front_ready s x rest v e in
    rw (dispatch_from-cons s p x rest t e there r) (
      run-Inv s x t v there rest e idle,
      λ j c. ground (
        arith,
        task_id_eq_iff x j,
        task-write s x (to_state running t) j there (task-eq_some s x there).1,
      ),
    )

pub requeue-Requeued :
    (s : Scheduler) (c : Option TaskId) → s.current ≡ c → Inv s → Requeued s (requeue s c)
requeue-Requeued s none e v = requeue-none s v e
requeue-Requeued s (some id) e v = requeue_current s id v e

-- Dispatch keeps the invariant, and the current task runs after it.
pub schedule_next-Inv :
    (s : Scheduler) → Inv s → Inv (schedule_next s).0 × CurrentRuns (schedule_next s).0
unfolding schedule_next
schedule_next-Inv s v =
    let (v', idle, _) = requeue-Requeued s s.current refl v in
    dispatch_from-Inv (requeue s s.current) s.current _ refl v' idle

-- Where the current task runs, it goes to the end of the queue.
abbrev pub requeued_list : Scheduler → Option TaskId → List TaskId
requeued_list s none = s.ready.queue
requeued_list s (some id) = s.ready.queue ++ id ∷ []

pub requeue_list :
    (s : Scheduler) (c : Option TaskId)
    → s.current ≡ c
    → Inv s
    → CurrentRuns s
    → (requeue s c).ready.queue ≡ requeued_list s c
unfolding requeue
requeue_list s none e v r = refl
requeue_list s (some id) e v r = elim (Option-cases (task s id)) [
  | inl f ↦ absurd (cc (r id e, f))
  | inr (t, f) ↦
      rw (requeue_moved s id t f (ground (arith, r id)) (ground (arith, v.queued id, r id)))
]
