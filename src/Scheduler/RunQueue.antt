-- ===== src/Scheduler/RunQueue.antt =====
-- The ready queue, kernel/src/scheduler/run_queue.rs. `VecDeque<TaskId>` is the list of its
-- elements, front first.
pub mod Laws
use x.Base.{
  ℕ, Bool, true, false, Option, none, some, List, [], ◌∷◌, ◌++◌, ◌==◌, length, contains, position,
  remove_at, if◌then◌else◌,
}
use x.Scheduler.Task.{TaskId, TaskId_Eq}

pub record RunQueue : Type 0 where
  pub queue : List TaskId

unfoldable pub new : RunQueue
new = record { queue = [] }

unfoldable pub has : RunQueue → TaskId → Bool
has q id = contains q.queue id

unfoldable pub push : RunQueue → TaskId → RunQueue × Bool
push q id =
    if contains q.queue id then (q, false) else (record q { queue = q.queue ++ id ∷ [] }, true)

-- `VecDeque::front` and `VecDeque::pop_front`
abbrev pub front : List TaskId → Option TaskId
front [] = none
front (x ∷ xs) = some x

abbrev pub pop_front : List TaskId → Option TaskId × List TaskId
pop_front [] = (none, [])
pop_front (x ∷ xs) = (some x, xs)

unfoldable pub peek : RunQueue → Option TaskId
peek q = front q.queue

unfoldable pub pop : RunQueue → RunQueue × Option TaskId
pop q = let (id, rest) = pop_front q.queue in (record q { queue = rest }, id)

abbrev rotated : List TaskId → TaskId → List TaskId
rotated [] running = []
rotated (x ∷ xs) running = if x == running then xs ++ x ∷ [] else x ∷ xs

unfoldable pub rotate : RunQueue → TaskId → RunQueue × Option TaskId
rotate q running = let queue = rotated q.queue running in (record q { queue = queue }, front queue)

abbrev pub taken : List TaskId → Option (TaskId × List TaskId) → List TaskId × Bool
taken q none = (q, false)
taken q (some (x, rest)) = (rest, true)

unfoldable pub remove : RunQueue → TaskId → RunQueue × Bool
remove q id = elim (position q.queue id) [
  | none ↦ (q, false)
  | some i ↦
      let (queue, done) = taken q.queue (remove_at q.queue i) in (record q { queue = queue }, done)
]

unfoldable pub len : RunQueue → ℕ
len q = length q.queue

unfoldable pub is_empty : RunQueue → Bool
is_empty q = elim q.queue [ [] ↦ true | _ ∷ _ ↦ false ]

unfoldable pub snapshot : RunQueue → List TaskId
snapshot q = q.queue
