-- ===== src/Scheduler/RunQueue/Laws.antt =====
-- What the queue operations do to the membership and the order of a queue without duplicates.
use x.Base.{
  ◌≡◌, true, false, ◌==◌, arith, contains, Distinct, without, position-eq-none, remove_at-position,
  contains-without, Distinct-without, contains-push, Distinct-push, Bool-cases, inl, inr,
  if◌then◌else◌, ◌||◌,
}
use x.Scheduler.Task.{TaskId, TaskId_Eq, task_id_eq_iff}
use x.Scheduler.RunQueue.{RunQueue, push, remove}

-- `push` appends a task that is not queued and refuses one that is: a queue without duplicates
-- stays so, and then holds what it held and the task.
pub push_lem :
    (q : RunQueue) (id j : TaskId)
    → Distinct q.queue
    → Distinct (push q id).0.queue
      × (contains (push q id).0.queue j ≡ (contains q.queue j || id == j))
unfolding push
push_lem q id j d = elim (Bool-cases (contains q.queue id)) [
  | inl old ↦ rw old (d, ground (arith, task_id_eq_iff id j))
  | inr new ↦ rw new (Distinct-push q.queue id new d, contains-push q.queue id j)
]

remove-absent :
    (q : RunQueue) (id : TaskId) → contains q.queue id ≡ false → remove q id ≡ (q, false)
unfolding remove
remove-absent q id h = ground (arith, position-eq-none q.queue id h)

remove-present :
    (q : RunQueue) (id : TaskId)
    → contains q.queue id ≡ true
    → remove q id ≡ (record { queue = without q.queue id }, true)
unfolding remove
remove-present q id h = let (i, found, taken) = remove_at-position q.queue id h in ground arith

-- `remove` reports whether the task was queued; it takes that task out of the queue and no other,
-- and leaves no duplicates.
pub remove_lem :
    (q : RunQueue) (id j : TaskId)
    → Distinct q.queue
    → ((remove q id).1 ≡ contains q.queue id)
      × Distinct (remove q id).0.queue
      × (contains (remove q id).0.queue j ≡ (if id == j then false else contains q.queue j))
remove_lem q id j d = elim (Bool-cases (contains q.queue id)) [
  | inl h ↦
      rw (remove-present q id h)
        (rw h, Distinct-without q.queue id d, contains-without q.queue id j d)
  | inr h ↦ rw (remove-absent q id h) (rw h, d, ground (arith, task_id_eq_iff id j))
]
