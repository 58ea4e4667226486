-- ===== src/Scheduler/Preservation/Block.antt =====
-- `block_current_on` and `sleep_current_until`: the current task blocks and is queued, or nothing
-- changes.
use x.Base.{
  ℕ, ◌≡◌, ◌∙◌, refl, ap, true, Option, none, some, [], ◌∷◌, ◌++◌, ◌==◌, arith, contains, inl, inr,
  Bool-cases, Option-cases, ok, err, Result, ◌⊎◌,
}
use x.Scheduler.Task.{TaskId, TaskId_Eq, TaskState_Eq, running, TaskControlBlock}
use x.Scheduler.WaitQueue.{WaitQueue}
use x.Scheduler.SleepQueue
use x.Scheduler.SleepQueue.{SleepQueue, any_task}
use x.Scheduler.SleepQueue.Insertion.{Inserted, insert-Inserted}
use x.Scheduler.State.{
  Scheduler, task, SchedulerError, task_not_found, wait_queue_already_contains_task,
  sleep_queue_already_contains_task,
}
use x.Scheduler.Waiting.{block_current_on, block_on, sleep_current_until, sleep}
use x.Scheduler.Invariant.{Inv, block-Inv}
use x.Scheduler.Preservation.Exit.{blocked_off}

-- The current task `id` runs, and `r` is the scheduler in which it is blocked.
abbrev pub Blocks : Scheduler → TaskId → Scheduler → Type 0
Blocks s id r =
    (s.current ≡ some id)
    × ((t : TaskControlBlock) × (task s id ≡ some t)
        × (t.state ≡ running)
        × (r ≡ blocked_off s id t))

Blocks-Inv : (s : Scheduler) (id : TaskId) (r : Scheduler) → Inv s → Blocks s id r → Inv r
Blocks-Inv s id r v (c, (t, e, run, out)) = rw out (block-Inv s id t v e (ground arith))

-- An operation that lends a queue of type `Q`: it is refused and changes nothing, or the current
-- task blocks, the queue becomes `queued id`, and the task is reported.
abbrev pub BlocksOrNot :
    {Q : Type 0}
    → Scheduler
    → Q
    → (TaskId → Q)
    → Scheduler × Q × Result SchedulerError TaskId
    → Type 0
BlocksOrNot s q queued r =
    ((e : SchedulerError) × (r ≡ (s, q, err e)))
    ⊎ ((id : TaskId) × (s' : Scheduler) × Blocks s id s' × (r ≡ (s', queued id, ok id)))

abbrev pub behind : WaitQueue → TaskId → WaitQueue
behind w id = record { queue = w.queue ++ id ∷ [] }

block_on-none :
    (s : Scheduler) (w : WaitQueue) (id : TaskId)
    → task s id ≡ none
    → BlocksOrNot s w (behind w) (block_on s w (some id))
unfolding block_current_on
block_on-none s w id e = elim (Bool-cases (contains w.queue id)) [
  | inl old ↦ inl (wait_queue_already_contains_task, ground arith)
  | inr new ↦ inl (task_not_found, ground arith)
]

block_on-some :
    (s : Scheduler) (w : WaitQueue) (id : TaskId) (t : TaskControlBlock)
    → s.current ≡ some id
    → task s id ≡ some t
    → BlocksOrNot s w (behind w) (block_on s w (some id))
unfolding block_current_on
block_on-some s w id t c e = elim (Bool-cases (contains w.queue id)) [
  | inl old ↦ inl (wait_queue_already_contains_task, ground arith)
  | inr new ↦ elim (Bool-cases (t.state == running)) [
    | inl r ↦ inr (id, blocked_off s id t, (c, (t, e, ground arith, refl)), ground arith)
    | inr r ↦ inl (task_not_found, ground arith)
  ]
]

block_on-cases :
    (s : Scheduler) (w : WaitQueue) (c : Option TaskId)
    → s.current ≡ c
    → BlocksOrNot s w (behind w) (block_on s w c)
block_on-cases s w none e = inl (task_not_found, refl)
block_on-cases s w (some id) e = elim (Option-cases (task s id)) [
  | inl f ↦ block_on-none s w id f
  | inr (t, f) ↦ block_on-some s w id t e f
]

-- Blocking on a wait queue either returns an error and changes neither the scheduler nor the queue,
-- or the current task, which was running, is blocked, stands at the end of the queue and is
-- reported.
pub block_current_on-BlocksOrNot :
    (s : Scheduler) (w : WaitQueue) → BlocksOrNot s w (behind w) (block_current_on s w)
unfolding block_current_on
block_current_on-BlocksOrNot s w = block_on-cases s w s.current refl

pub block_current_on-Inv : (s : Scheduler) (w : WaitQueue) → Inv s → Inv (block_current_on s w).0
block_current_on-Inv s w v = elim (block_current_on-BlocksOrNot s w) [
  | inl (e, out) ↦ rw out v
  | inr (id, s', b, out) ↦ rw out (Blocks-Inv s id s' v b)
]

abbrev pub asleep : SleepQueue → ℕ → TaskId → SleepQueue
asleep q deadline id = (SleepQueue.insert q (record { deadline = deadline; task = id })).0

sleep-none :
    (s : Scheduler) (deadline : ℕ) (q : SleepQueue) (id : TaskId)
    → task s id ≡ none
    → BlocksOrNot s q (asleep q deadline) (sleep s deadline q (some id))
unfolding sleep_current_until
sleep-none s deadline q id e = elim (Bool-cases (SleepQueue.has q id)) [
  | inl old ↦ inl (sleep_queue_already_contains_task, ground arith)
  | inr new ↦ inl (task_not_found, ground arith)
]

sleep-some :
    (s : Scheduler) (deadline : ℕ) (q : SleepQueue) (id : TaskId) (t : TaskControlBlock)
    → s.current ≡ some id
    → task s id ≡ some t
    → BlocksOrNot s q (asleep q deadline) (sleep s deadline q (some id))
unfolding sleep_current_until
sleep-some s deadline q id t c e = elim (Bool-cases (SleepQueue.has q id)) [
  | inl old ↦ inl (sleep_queue_already_contains_task, ground arith)
  | inr new ↦ elim (Bool-cases (t.state == running)) [
    | inl r ↦ inr (id, blocked_off s id t, (c, (t, e, ground arith, refl)), ground arith)
    | inr r ↦ inl (task_not_found, ground arith)
  ]
]

sleep-cases :
    (s : Scheduler) (deadline : ℕ) (q : SleepQueue) (c : Option TaskId)
    → s.current ≡ c
    → BlocksOrNot s q (asleep q deadline) (sleep s deadline q c)
sleep-cases s deadline q none e = inl (task_not_found, refl)
sleep-cases s deadline q (some id) e = elim (Option-cases (task s id)) [
  | inl f ↦ sleep-none s deadline q id f
  | inr (t, f) ↦ sleep-some s deadline q id t e f
]

pub sleep_current_until-BlocksOrNot :
    (s : Scheduler) (deadline : ℕ) (q : SleepQueue)
    → BlocksOrNot s q (asleep q deadline) (sleep_current_until s deadline q)
unfolding sleep_current_until
sleep_current_until-BlocksOrNot s deadline q = sleep-cases s deadline q s.current refl

-- A task that has an entry in the queue is refused.
sleep-refuses :
    (s : Scheduler) (deadline : ℕ) (q : SleepQueue) (id : TaskId)
    → s.current ≡ some id
    → any_task q.entries id ≡ true
    → (sleep_current_until s deadline q).2 ≡ err sleep_queue_already_contains_task
unfolding sleep_current_until SleepQueue.has
sleep-refuses s deadline q id now old =
    ap (λ c. (sleep s deadline q c).2) now ∙ rw (old, sleep) refl

-- Going to sleep either returns an error and changes neither the scheduler nor the queue, or the
-- current task, which was running and had no entry in the queue, is blocked and reported, and the queue
-- has one entry more, of the task and its deadline, placed so that no entry in front of it has a later
-- deadline and the entry next behind it has no earlier one; the others stand as before.
pub sleep_current_until-Sleeps :
    (s : Scheduler) (deadline : ℕ) (q : SleepQueue)
    → ((e : SchedulerError) × (sleep_current_until s deadline q ≡ (s, q, err e)))
      ⊎ ((id : TaskId) × (s' : Scheduler) × (q' : SleepQueue) × Blocks s id s'
          × Inserted q.entries (record { deadline = deadline; task = id }) q'.entries
          × (sleep_current_until s deadline q ≡ (s', q', ok id)))
sleep_current_until-Sleeps s deadline q = elim (sleep_current_until-BlocksOrNot s deadline q) [
  | inl refused ↦ inl refused
  | inr (id, s', blocks, out) ↦ elim (Bool-cases (any_task q.entries id)) [
    | inl old ↦
        let refused = sleep-refuses s deadline q id blocks.0 old in
        absurd (ground (arith, out, refused))
    | inr fresh ↦ inr (
      id,
      s',
      asleep q deadline id,
      blocks,
      insert-Inserted q (record { deadline = deadline; task = id }) fresh,
      out,
    )
  ]
]

pub sleep_current_until-Inv :
    (s : Scheduler) (deadline : ℕ) (q : SleepQueue)
    → Inv s
    → Inv (sleep_current_until s deadline q).0
sleep_current_until-Inv s deadline q v = elim (sleep_current_until-BlocksOrNot s deadline q) [
  | inl (e, out) ↦ rw out v
  | inr (id, s', b, out) ↦ rw out (Blocks-Inv s id s' v b)
]
