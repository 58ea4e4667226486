-- ===== src/Scheduler/State.antt =====
-- The scheduler's state and its table of task slots: `Scheduler`, `task`, `task_mut`, the queries
-- and task creation of kernel/src/scheduler/mod.rs.
use x.Base.{
  ℕ, suc, ◌+◌, ◌%◌, ◌^◌, Bool, Option, none, some, List, [], ◌∷◌, ◌++◌, length, get_elem?, set,
  nat_eq, leb, ◌==◌, u32_max, if◌then◌else◌,
}
use x.Scheduler.Task.{
  TaskId, TaskId_Eq, TaskKind, kernel, userspace, TaskState, TaskState_Eq, Priority,
  TaskControlBlock, ExecutionHandle, new_kernel, new_userspace, transition,
}
use x.Scheduler.RunQueue
use x.Scheduler.RunQueue.{RunQueue}

pub record DispatchDecision : Type 0 where
  pub previous : Option TaskId
  pub next : Option TaskId

pub data SchedulerError : Type 0 where
  task_not_found execution_already_attached task_not_created : SchedulerError
  wait_queue_already_contains_task sleep_queue_already_contains_task : SchedulerError
  current_task_mismatch successor_not_ready : SchedulerError

abbrev pub Slot : Type 0
Slot = Option TaskControlBlock

-- The `Box` round a control block is not modelled: a block has no other owner than its slot.
pub record Scheduler : Type 0 where
  pub tasks : List Slot
  pub generations : List ℕ
  pub ready : RunQueue
  pub current : Option TaskId

unfoldable pub new : Scheduler
new = record { tasks = []; generations = []; ready = RunQueue.new; current = none }

-- The occupant of a slot, if it is the task meant; the outer `none` is an index out of range.
abbrev pub held : TaskId → Option Slot → Option TaskControlBlock
held id none = none
held id (some none) = none
held id (some (some t)) = if t.id == id then some t else none

unfoldable pub find : List Slot → TaskId → Option TaskControlBlock
find ts id = held id (get_elem? ts id.index)

unfoldable pub put : List Slot → TaskId → Slot → List Slot
put ts id slot = set ts id.index slot

-- `task` and `task_mut`
abbrev pub task : Scheduler → TaskId → Option TaskControlBlock
task s id = find s.tasks id

-- What a method called on the result of `task_mut(id)` leaves in the slot.
abbrev pub write : Scheduler → TaskId → TaskControlBlock → Scheduler
write s id t = record s { tasks = put s.tasks id (some t) }

-- `self.tasks[id.index()] = None`
abbrev pub clear : Scheduler → TaskId → Scheduler
clear s id = record s { tasks = put s.tasks id none }

-- `task.transition(to)` on the result of `task_mut(id)`; `none` if there is no such task.
unfoldable pub change : Scheduler → TaskId → TaskState → Scheduler × Option Bool
unfolding transition find put
change s id to = elim (task s id) [
  | none ↦ (s, none)
  | some t ↦ let (t', valid) = transition t to in (if valid then write s id t' else s, some valid)
]

unfoldable pub state : Scheduler → TaskId → Option TaskState
unfolding find
state s id = elim (task s id) [ none ↦ none | some t ↦ some t.state ]

unfoldable pub task_kind : Scheduler → TaskId → Option TaskKind
unfolding find
task_kind s id = elim (task s id) [ none ↦ none | some t ↦ some t.kind ]

unfoldable pub execution : Scheduler → TaskId → Option ExecutionHandle
unfolding find
execution s id = elim (task s id) [ none ↦ none | some t ↦ t.execution ]

unfoldable pub next_ready : Scheduler → Option TaskId
next_ready s = RunQueue.peek s.ready

unfoldable pub ready_len : Scheduler → ℕ
ready_len s = RunQueue.len s.ready

abbrev pub count_occupied : List Slot → ℕ
count_occupied [] = 0
count_occupied (none ∷ ts) = count_occupied ts
count_occupied (some t ∷ ts) = suc (count_occupied ts)

unfoldable pub task_count : Scheduler → ℕ
task_count s = count_occupied s.tasks

-- The `find` of `create_task_with_kind`. A generation read out of bounds is a panic.
pub data SlotSearch : Type 0 where
  found : ℕ → SlotSearch
  not_found out_of_bounds : SlotSearch

unfoldable pub free_slot : List Slot → List ℕ → ℕ → SlotSearch
free_slot [] generations i = not_found
free_slot (some t ∷ ts) generations i = free_slot ts generations (suc i)
free_slot (none ∷ ts) generations i =
    let rest = free_slot ts generations (suc i) in
    elim (get_elem? generations i) [
      | none ↦ out_of_bounds
      | some g ↦ if nat_eq g u32_max then rest else found i
    ]

unfoldable pub new_task : TaskKind → TaskId → Priority → TaskControlBlock
unfolding new_kernel new_userspace
new_task kernel id priority = new_kernel id priority
new_task userspace id priority = new_userspace id priority

-- `create_task_with_kind`; `none` is a panic, by `expect` or by an index out of bounds.
abbrev pub occupy : Scheduler → Priority → TaskKind → ℕ → Option ℕ → Option (Scheduler × TaskId)
occupy s priority kind i none = none
occupy s priority kind i (some g) =
    let id : TaskId = record { index = i % 2 ^ 32; generation = g + 1 } in
    if leb (g + 1) u32_max
    then some (
      record s {
        tasks = set s.tasks i (some (new_task kind id priority));
        generations = set s.generations i (g + 1);
      },
      id,
    )
    else none

unfoldable pub create_task_with_kind : Scheduler → Priority → TaskKind → Option (Scheduler × TaskId)
unfolding new_task
create_task_with_kind s priority kind = elim (free_slot s.tasks s.generations 0) [
  | out_of_bounds ↦ none
  | found i ↦ occupy s priority kind i (get_elem? s.generations i)
  | not_found ↦
      let id : TaskId = record { index = length s.tasks % 2 ^ 32; generation = 1 } in
      some (
        record s {
          tasks = s.tasks ++ some (new_task kind id priority) ∷ [];
          generations = s.generations ++ 1 ∷ [];
        },
        id,
      )
]

unfoldable pub create_task : Scheduler → Priority → Option (Scheduler × TaskId)
create_task s priority = create_task_with_kind s priority kernel

unfoldable pub create_user_task : Scheduler → Priority → Option (Scheduler × TaskId)
create_user_task s priority = create_task_with_kind s priority userspace
