-- ===== src/Scheduler/WaitQueue.antt =====
-- Queues of blocked tasks, kernel/src/scheduler/wait_queue.rs.
use x.Base.{
  ℕ, Bool, true, false, Option, none, some, List, [], ◌∷◌, ◌++◌, length, contains, position,
  remove_at, if◌then◌else◌, Result, ok, err,
}
use x.Scheduler.Task.{TaskId, TaskId_Eq}
use x.Scheduler.RunQueue.{front, pop_front, taken}

pub record WaitQueue : Type 0 where
  pub queue : List TaskId

pub data WaitQueueError : Type 0 where
  already_queued : WaitQueueError

unfoldable pub new : WaitQueue
new = record { queue = [] }

unfoldable pub has : WaitQueue → TaskId → Bool
has q task = contains q.queue task

unfoldable pub enqueue : WaitQueue → TaskId → WaitQueue × Result WaitQueueError (Unit {0})
enqueue q task =
    if contains q.queue task
    then (q, err already_queued)
    else (record q { queue = q.queue ++ task ∷ [] }, ok tt)

unfoldable pub dequeue : WaitQueue → WaitQueue × Option TaskId
dequeue q = let (id, rest) = pop_front q.queue in (record q { queue = rest }, id)

unfoldable pub remove : WaitQueue → TaskId → WaitQueue × Bool
remove q task = elim (position q.queue task) [
  | none ↦ (q, false)
  | some i ↦
      let (queue, done) = taken q.queue (remove_at q.queue i) in (record q { queue = queue }, done)
]

unfoldable pub peek : WaitQueue → Option TaskId
peek q = front q.queue

unfoldable pub len : WaitQueue → ℕ
len q = length q.queue

unfoldable pub is_empty : WaitQueue → Bool
is_empty q = elim q.queue [ [] ↦ true | _ ∷ _ ↦ false ]

unfoldable pub snapshot : WaitQueue → List TaskId
snapshot q = q.queue
