-- ===== src/Scheduler/SleepQueue.antt =====
-- The deadline queue, kernel/src/scheduler/sleep_queue.rs. `Vec<SleepEntry>` is a list.
pub mod Order
pub mod Removal
pub mod Insertion
use x.Base.{
  ℕ, Bool, true, false, ◌&&◌, ◌||◌, Option, none, some, List, [], ◌∷◌, ◌++◌, map, length, nat_eq,
  ltb, leb, zero, suc, if◌then◌else◌, ◌==◌,
}
use x.Scheduler.Task.{TaskId, TaskId_Eq, task_id_le}

pub record SleepEntry : Type 0 where
  pub deadline : ℕ
  pub task : TaskId

pub record SleepQueue : Type 0 where
  pub entries : List SleepEntry

unfoldable pub new : SleepQueue
new = record { entries = [] }

-- `(a.deadline, a.task) <= (b.deadline, b.task)`, the order of pairs.
unfoldable pub entry_le : SleepEntry → SleepEntry → Bool
unfolding task_id_le
entry_le a b =
    ltb a.deadline b.deadline || (nat_eq a.deadline b.deadline && task_id_le a.task b.task)

-- `entries.iter().any(|candidate| candidate.task == task)`
unfoldable pub any_task : List SleepEntry → TaskId → Bool
any_task [] task = false
any_task (e ∷ es) task = e.task == task || any_task es task

-- `slice::partition_point`: on a slice that the test partitions, as in a sorted queue, the number
-- of leading elements that pass.
unfoldable pub partition_point : (SleepEntry → Bool) → List SleepEntry → ℕ
partition_point p [] = 0
partition_point p (e ∷ es) = let rest = suc (partition_point p es) in if p e then rest else 0

-- `Vec::insert`
unfoldable pub insert_at : List SleepEntry → ℕ → SleepEntry → List SleepEntry
insert_at es zero entry = entry ∷ es
insert_at [] (suc i) entry = entry ∷ []
insert_at (e ∷ es) (suc i) entry = e ∷ insert_at es i entry

unfoldable pub insert : SleepQueue → SleepEntry → SleepQueue × Bool
insert q entry = if any_task q.entries entry.task then (q, false) else (
  record q {
    entries = insert_at q.entries (partition_point (λ c. entry_le c entry) q.entries) entry;
  },
  true,
)

unfoldable pub next_deadline : SleepQueue → Option ℕ
next_deadline q = elim q.entries [ [] ↦ none | e ∷ _ ↦ some e.deadline ]

-- `Vec::drain(..n)`: what is taken, and what stays.
unfoldable pub drain : ℕ → List SleepEntry → List SleepEntry × List SleepEntry
drain zero es = ([], es)
drain (suc n) [] = ([], [])
drain (suc n) (e ∷ es) = let (out, rest) = drain n es in (e ∷ out, rest)

unfoldable pub expire_until : SleepQueue → ℕ → SleepQueue × List TaskId
expire_until q now =
    let (out, rest) = drain (partition_point (λ e. leb e.deadline now) q.entries) q.entries in
    (record q { entries = rest }, map (λ e. e.task) out)

-- `position` of the entry of a task, and `Vec::remove` there.
unfoldable pub position_task : List SleepEntry → TaskId → Option ℕ
position_task [] task = none
position_task (e ∷ es) task =
    let rest = position_task es task in
    if e.task == task then some 0 else elim rest [ none ↦ none | some i ↦ some (suc i) ]

unfoldable pub delete_at : List SleepEntry → ℕ → List SleepEntry
delete_at [] i = []
delete_at (e ∷ es) zero = es
delete_at (e ∷ es) (suc i) = e ∷ delete_at es i

unfoldable pub remove : SleepQueue → TaskId → SleepQueue × Bool
remove q task = elim (position_task q.entries task) [
  | none ↦ (q, false)
  | some i ↦ (record q { entries = delete_at q.entries i }, true)
]

unfoldable pub has : SleepQueue → TaskId → Bool
has q task = any_task q.entries task

unfoldable pub len : SleepQueue → ℕ
len q = length q.entries

unfoldable pub is_empty : SleepQueue → Bool
is_empty q = elim q.entries [ [] ↦ true | _ ∷ _ ↦ false ]

unfoldable pub snapshot : SleepQueue → List SleepEntry
snapshot q = q.entries
