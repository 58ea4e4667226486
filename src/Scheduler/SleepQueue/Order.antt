-- ===== src/Scheduler/SleepQueue/Order.antt =====
-- The sleep queue stays sorted, and expiry takes exactly the entries that are due.
use x.Base.{
  ℕ, zero, suc, ◌≡◌, refl, Bool, true, false, List, [], ◌∷◌, map, ◌==◌, Bool-cases, inl, inr, arith,
  leb, ltb, if◌then◌else◌, ◌||◌,
}
use x.Scheduler.Task.{TaskId, TaskId_Eq, task_id_eq_iff}
use x.Scheduler.SleepQueue.{
  SleepEntry, SleepQueue, entry_le, any_task, partition_point, insert_at, insert, drain,
  expire_until,
}

abbrev pub AllFrom : SleepEntry → List SleepEntry → Type 0
AllFrom a [] = Unit {0}
AllFrom a (e ∷ es) = (entry_le a e ≡ true) × AllFrom a es

-- Ascending by deadline and task.
abbrev pub Sorted : List SleepEntry → Type 0
Sorted [] = Unit {0}
Sorted (e ∷ es) = AllFrom e es × Sorted es

-- No task has two entries.
abbrev pub OnePerTask : List SleepEntry → Type 0
OnePerTask [] = Unit {0}
OnePerTask (e ∷ es) = (any_task es e.task ≡ false) × OnePerTask es

pub record IsValid (q : SleepQueue) : Type 0 where
  pub sorted : Sorted q.entries
  pub one_per_task : OnePerTask q.entries

entry_le_total : (a b : SleepEntry) → entry_le a b ≡ false → entry_le b a ≡ true
unfolding entry_le
entry_le_total a b h = ground arith

entry_le_trans :
    (a b c : SleepEntry) → entry_le a b ≡ true → entry_le b c ≡ true → entry_le a c ≡ true
unfolding entry_le
entry_le_trans a b c p q = ground arith

AllFrom-trans :
    (a b : SleepEntry) (es : List SleepEntry) → entry_le a b ≡ true → AllFrom b es → AllFrom a es
AllFrom-trans a b [] p h = tt
AllFrom-trans a b (e ∷ es) p h = (entry_le_trans a b e p h.0, AllFrom-trans a b es p h.1)

AllFrom-insert_at :
    (a : SleepEntry) (es : List SleepEntry) (i : ℕ) (entry : SleepEntry)
    → entry_le a entry ≡ true
    → AllFrom a es
    → AllFrom a (insert_at es i entry)
unfolding insert_at
AllFrom-insert_at a es zero entry p h = (p, h)
AllFrom-insert_at a [] (suc i) entry p h = (p, tt)
AllFrom-insert_at a (e ∷ es) (suc i) entry p h = (h.0, AllFrom-insert_at a es i entry p h.1)

abbrev place : List SleepEntry → SleepEntry → List SleepEntry
place es entry = insert_at es (partition_point (λ c. entry_le c entry) es) entry

place-Sorted : (es : List SleepEntry) (entry : SleepEntry) → Sorted es → Sorted (place es entry)
unfolding insert_at partition_point
place-Sorted [] entry h = (tt, tt)
place-Sorted (e ∷ es) entry h = elim (Bool-cases (entry_le e entry)) [
  | inl before ↦ rw before (
    AllFrom-insert_at e es (partition_point (λ c. entry_le c entry) es) entry before h.0,
    place-Sorted es entry h.1,
  )
  | inr after ↦ rw after (
    (entry_le_total e entry after, AllFrom-trans entry e es (entry_le_total e entry after) h.0),
    h,
  )
]

any_task-insert_at :
    (es : List SleepEntry) (i : ℕ) (entry : SleepEntry) (t : TaskId)
    → any_task (insert_at es i entry) t ≡ (entry.task == t || any_task es t)
unfolding insert_at any_task
any_task-insert_at es zero entry t = refl
any_task-insert_at [] (suc i) entry t = refl
any_task-insert_at (e ∷ es) (suc i) entry t = ground (arith, any_task-insert_at es i entry t)

insert_at-OnePerTask :
    (es : List SleepEntry) (i : ℕ) (entry : SleepEntry)
    → any_task es entry.task ≡ false
    → OnePerTask es
    → OnePerTask (insert_at es i entry)
unfolding insert_at any_task
insert_at-OnePerTask es zero entry fresh h = (fresh, h)
insert_at-OnePerTask [] (suc i) entry fresh h = (refl, tt)
insert_at-OnePerTask (e ∷ es) (suc i) entry fresh h = (
  ground (
    arith,
    any_task-insert_at es i entry e.task,
    task_id_eq_iff e.task entry.task,
    task_id_eq_iff entry.task e.task,
  ),
  insert_at-OnePerTask es i entry (ground arith) h.1,
)

-- Insertion keeps the queue sorted with one entry for each task, whether it is refused or not.
pub insert-IsValid : (q : SleepQueue) (entry : SleepEntry) → IsValid q → IsValid (insert q entry).0
unfolding insert
insert-IsValid q entry v = elim (Bool-cases (any_task q.entries entry.task)) [
  | inl old ↦ rw old v
  | inr fresh ↦ rw fresh (record {
    sorted = place-Sorted q.entries entry v.sorted;
    one_per_task = insert_at-OnePerTask q.entries _ entry fresh v.one_per_task;
  })
]

-- After an insertion that is accepted, the queue holds the tasks it held before and the new one.
pub any_task-insert :
    (q : SleepQueue) (entry : SleepEntry) (t : TaskId)
    → any_task (insert q entry).0.entries t ≡ (entry.task == t || any_task q.entries t)
unfolding insert
any_task-insert q entry t = elim (Bool-cases (any_task q.entries entry.task)) [
  | inl old ↦ rw old (ground (arith, task_id_eq_iff entry.task t))
  | inr fresh ↦ rw fresh (any_task-insert_at q.entries _ entry t)
]

-- The entries that pass a test, in their order: an independent description of expiry.
unfoldable pub keep : (SleepEntry → Bool) → List SleepEntry → List SleepEntry
keep p [] = []
keep p (e ∷ es) = if p e then e ∷ keep p es else keep p es

abbrev pub due : ℕ → SleepEntry → Bool
due now e = leb e.deadline now

abbrev pub later : ℕ → SleepEntry → Bool
later now e = ltb now e.deadline

none_due :
    (now : ℕ) (a : SleepEntry) (es : List SleepEntry)
    → due now a ≡ false
    → AllFrom a es
    → (keep (due now) es ≡ []) × (keep (later now) es ≡ es)
unfolding keep entry_le
none_due now a [] h s = (refl, refl)
none_due now a (e ∷ es) h s = let ih = none_due now a es h s.1 in ground arith

drain-keep :
    (now : ℕ) (es : List SleepEntry)
    → Sorted es
    → drain (partition_point (due now) es) es ≡ (keep (due now) es, keep (later now) es)
unfolding drain partition_point keep
drain-keep now [] s = refl
drain-keep now (e ∷ es) s = elim (Bool-cases (due now e)) [
  | inl d ↦ ground (arith, drain-keep now es s.1)
  | inr l ↦ ground (arith, none_due now e es l s.0)
]

-- On a sorted queue, expiry at `now` returns exactly the tasks whose deadline is at most `now`, in
-- the order of the queue, and leaves exactly the entries whose deadline is later.
pub expire_until-keep :
    (q : SleepQueue) (now : ℕ)
    → IsValid q
    → ((expire_until q now).1 ≡ map (λ e. e.task) (keep (due now) q.entries))
      × ((expire_until q now).0.entries ≡ keep (later now) q.entries)
unfolding expire_until
expire_until-keep q now v = rw (drain-keep now q.entries v.sorted) (refl, refl)
