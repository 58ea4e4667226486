-- ===== src/Scheduler/SleepQueue/Removal.antt =====
-- Expiry and removal keep the sleep queue sorted, with one entry for each task.
use x.Base.{
  ℕ, zero, suc, ◌≡◌, refl, Bool, false, Option, none, some, List, [], ◌∷◌, ◌==◌, Bool-cases,
  Option-cases, inl, inr, arith, if◌then◌else◌,
}
use x.Scheduler.Task.{TaskId, TaskId_Eq, task_id_eq_iff}
use x.Scheduler.SleepQueue.{
  SleepEntry, SleepQueue, any_task, expire_until, position_task, delete_at, remove,
}
use x.Scheduler.SleepQueue.Order.{
  AllFrom, Sorted, OnePerTask, IsValid, keep, later, expire_until-keep,
}

keep-AllFrom :
    (p : SleepEntry → Bool) (a : SleepEntry) (es : List SleepEntry)
    → AllFrom a es
    → AllFrom a (keep p es)
unfolding keep
keep-AllFrom p a [] h = tt
keep-AllFrom p a (e ∷ es) h = elim (Bool-cases (p e)) [
  | inl t ↦ rw t (h.0, keep-AllFrom p a es h.1)
  | inr f ↦ rw f (keep-AllFrom p a es h.1)
]

keep-Sorted : (p : SleepEntry → Bool) (es : List SleepEntry) → Sorted es → Sorted (keep p es)
unfolding keep
keep-Sorted p [] h = tt
keep-Sorted p (e ∷ es) h = elim (Bool-cases (p e)) [
  | inl t ↦ rw t (keep-AllFrom p e es h.0, keep-Sorted p es h.1)
  | inr f ↦ rw f (keep-Sorted p es h.1)
]

any_task-keep :
    (p : SleepEntry → Bool) (es : List SleepEntry) (t : TaskId)
    → any_task es t ≡ false
    → any_task (keep p es) t ≡ false
unfolding keep any_task
any_task-keep p [] t h = refl
any_task-keep p (e ∷ es) t h = ground (arith, any_task-keep p es t)

keep-OnePerTask :
    (p : SleepEntry → Bool) (es : List SleepEntry) → OnePerTask es → OnePerTask (keep p es)
unfolding keep
keep-OnePerTask p [] h = tt
keep-OnePerTask p (e ∷ es) h = elim (Bool-cases (p e)) [
  | inl t ↦ rw t (any_task-keep p es e.task h.0, keep-OnePerTask p es h.1)
  | inr f ↦ rw f (keep-OnePerTask p es h.1)
]

-- What expiry leaves is a valid queue again.
pub expire_until-IsValid : (q : SleepQueue) (now : ℕ) → IsValid q → IsValid (expire_until q now).0
expire_until-IsValid q now v =
    let left = (expire_until-keep q now v).1 in
    record {
      sorted = rw left (keep-Sorted (later now) q.entries v.sorted);
      one_per_task = rw left (keep-OnePerTask (later now) q.entries v.one_per_task);
    }

delete_at-AllFrom :
    (a : SleepEntry) (es : List SleepEntry) (i : ℕ) → AllFrom a es → AllFrom a (delete_at es i)
unfolding delete_at
delete_at-AllFrom a [] i h = tt
delete_at-AllFrom a (e ∷ es) zero h = h.1
delete_at-AllFrom a (e ∷ es) (suc i) h = (h.0, delete_at-AllFrom a es i h.1)

delete_at-Sorted : (es : List SleepEntry) (i : ℕ) → Sorted es → Sorted (delete_at es i)
unfolding delete_at
delete_at-Sorted [] i h = tt
delete_at-Sorted (e ∷ es) zero h = h.1
delete_at-Sorted (e ∷ es) (suc i) h = (delete_at-AllFrom e es i h.0, delete_at-Sorted es i h.1)

any_task-delete_at :
    (es : List SleepEntry) (i : ℕ) (t : TaskId)
    → any_task es t ≡ false
    → any_task (delete_at es i) t ≡ false
unfolding delete_at any_task
any_task-delete_at [] i t h = refl
any_task-delete_at (e ∷ es) zero t h = ground arith
any_task-delete_at (e ∷ es) (suc i) t h = ground (arith, any_task-delete_at es i t)

delete_at-OnePerTask : (es : List SleepEntry) (i : ℕ) → OnePerTask es → OnePerTask (delete_at es i)
unfolding delete_at
delete_at-OnePerTask [] i h = tt
delete_at-OnePerTask (e ∷ es) zero h = h.1
delete_at-OnePerTask (e ∷ es) (suc i) h =
    (any_task-delete_at es i e.task h.0, delete_at-OnePerTask es i h.1)

abbrev after_removal : List SleepEntry → Option ℕ → List SleepEntry
after_removal es none = es
after_removal es (some i) = delete_at es i

remove-entries :
    (q : SleepQueue) (task : TaskId)
    → (remove q task).0.entries ≡ after_removal q.entries (position_task q.entries task)
unfolding remove
remove-entries q task = ground arith

any_task-removed :
    (es : List SleepEntry) (task t : TaskId)
    → OnePerTask es
    → any_task (after_removal es (position_task es task)) t
      ≡ (if task == t then false else any_task es t)
unfolding position_task any_task delete_at
any_task-removed [] task t h = ground arith
any_task-removed (e ∷ es) task t h = ground (
  arith,
  any_task-removed es task t,
  task_id_eq_iff e.task task,
  task_id_eq_iff task t,
  task_id_eq_iff e.task t,
)

-- Removal deletes the entry of that task and of no other, and leaves a valid queue.
pub remove-IsValid :
    (q : SleepQueue) (task t : TaskId)
    → IsValid q
    → IsValid (remove q task).0
      × (any_task (remove q task).0.entries t ≡ (if task == t then false else any_task q.entries t))
remove-IsValid q task t v = rw (remove-entries q task) (
  elim (Option-cases (position_task q.entries task)) [
    | inl e ↦ record {
      sorted = rw (remove-entries q task, e) v.sorted;
      one_per_task = rw (remove-entries q task, e) v.one_per_task;
    }
    | inr (i, e) ↦ record {
      sorted = rw (remove-entries q task, e) (delete_at-Sorted q.entries i v.sorted);
      one_per_task =
          rw (remove-entries q task, e) (delete_at-OnePerTask q.entries i v.one_per_task);
    }
  ],
  any_task-removed q.entries task t v.one_per_task,
)
