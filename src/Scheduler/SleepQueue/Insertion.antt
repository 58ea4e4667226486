-- ===== src/Scheduler/SleepQueue/Insertion.antt =====
-- Where an insertion into the deadline queue puts its entry.
use x.Base.{◌≤◌, ◌≡◌, ◌≢◌, refl, ap, false, List, [], ◌∷◌, ◌++◌, Bool-cases, inl, inr, arith}
use x.Scheduler.Task.{TaskId, TaskId_Eq, task_id_eq_iff}
use x.Scheduler.SleepQueue.{
  SleepEntry, SleepQueue, entry_le, any_task, partition_point, insert_at, insert,
}

-- No entry of a list is of the task.
abbrev pub Fresh : TaskId → List SleepEntry → Type 0
Fresh id [] = Unit {0}
Fresh id (e ∷ es) = (e.task ≢ id) × Fresh id es

-- The deadlines of a list are at most that of the entry.
abbrev pub NoneLater : SleepEntry → List SleepEntry → Type 0
NoneLater entry [] = Unit {0}
NoneLater entry (e ∷ es) = (e.deadline ≤ entry.deadline) × NoneLater entry es

-- The first deadline of a list is at least that of the entry.
abbrev pub NotBefore : SleepEntry → List SleepEntry → Type 0
NotBefore entry [] = Unit {0}
NotBefore entry (e ∷ es) = entry.deadline ≤ e.deadline

-- The entries after are those before with the new one among them, no later deadline in front of it and no
-- earlier one next behind it; no entry before was of its task.
abbrev pub Inserted : List SleepEntry → SleepEntry → List SleepEntry → Type 0
Inserted before entry after =
    Fresh entry.task before
    × ((front : List SleepEntry) × (back : List SleepEntry) × (before ≡ front ++ back)
        × (after ≡ front ++ entry ∷ back)
        × NoneLater entry front
        × NotBefore entry back)

any_task-Fresh : (es : List SleepEntry) (id : TaskId) → any_task es id ≡ false → Fresh id es
unfolding any_task
any_task-Fresh [] id h = tt
any_task-Fresh (e ∷ es) id h =
    (λ same. absurd (ground (arith, task_id_eq_iff e.task id)), any_task-Fresh es id (ground arith))

placed :
    (es : List SleepEntry) (entry : SleepEntry)
    → (front : List SleepEntry) × (back : List SleepEntry) × (es ≡ front ++ back)
      × (insert_at es (partition_point (λ c. entry_le c entry) es) entry ≡ front ++ entry ∷ back)
      × NoneLater entry front
      × NotBefore entry back
unfolding insert_at partition_point entry_le
placed [] entry = ([], [], refl, refl, tt, tt)
placed (e ∷ es) entry = elim (Bool-cases (entry_le e entry)) [
  | inr after ↦ ([], e ∷ es, refl, rw (after, partition_point) refl, tt, ground (arith, after))
  | inl before ↦
      let (front, back, split, put, none_later, not_before) = placed es entry in
      (
        e ∷ front,
        back,
        ap (λ l. e ∷ l) split,
        rw (before, partition_point) (ap (λ l. e ∷ l) put),
        (ground (arith, before), none_later),
        not_before,
      )
]

-- An insertion for a task that has no entry puts the new entry in its place.
pub insert-Inserted :
    (q : SleepQueue) (entry : SleepEntry)
    → any_task q.entries entry.task ≡ false
    → Inserted q.entries entry (insert q entry).0.entries
unfolding insert
insert-Inserted q entry fresh =
    (any_task-Fresh q.entries entry.task fresh, rw (fresh, insert) (placed q.entries entry))
