-- ===== src/Scheduler/Task.antt =====
-- Task identity, execution handles and the task life cycle: kernel/src/scheduler/task.rs and
-- kernel/src/scheduler/execution.rs. A `&mut self` method returns the new value beside its result.
use x.Base.{
  ℕ, ◌≡◌, ◌↔◌, Bool, true, false, ◌&&◌, ◌||◌, Option, none, some, arith, nat_eq, ltb, PartialEq,
  if◌then◌else◌, Result, ok, err,
}

-- A slot index and the generation of its occupant, both `u32`.
pub record TaskId : Type 0 where
  pub index : ℕ
  pub generation : ℕ

unfoldable pub task_id_eq : TaskId → TaskId → Bool
task_id_eq a b = nat_eq a.index b.index && nat_eq a.generation b.generation

-- Two identities are equal when both fields are.
pub task_id_eq_iff : (a b : TaskId) → (task_id_eq a b ≡ true) ↔ (a ≡ b)
unfolding task_id_eq
task_id_eq_iff a b = ground arith

instance abbrev pub TaskId_Eq : PartialEq TaskId
TaskId_Eq = record { same = task_id_eq; same_iff = task_id_eq_iff }

-- The derived `Ord`: by index, then by generation.
unfoldable pub task_id_le : TaskId → TaskId → Bool
task_id_le a b =
    ltb a.index b.index
    || (nat_eq a.index b.index
        && (ltb a.generation b.generation || nat_eq a.generation b.generation))

pub record ExecutionHandle : Type 0 where
  pub task_id : TaskId

abbrev pub for_task : TaskId → ExecutionHandle
for_task id = record { task_id = id }

pub data TaskKind : Type 0 where
  kernel userspace : TaskKind

pub data TaskState : Type 0 where
  created ready running blocked exited : TaskState

abbrev pub task_state_eq : TaskState → TaskState → Bool
task_state_eq created created = true
task_state_eq ready ready = true
task_state_eq running running = true
task_state_eq blocked blocked = true
task_state_eq exited exited = true
task_state_eq _ _ = false

pub task_state_eq_iff : (a b : TaskState) → (task_state_eq a b ≡ true) ↔ (a ≡ b)
task_state_eq_iff a b = ground arith

instance abbrev pub TaskState_Eq : PartialEq TaskState
TaskState_Eq = record { same = task_state_eq; same_iff = task_state_eq_iff }

-- `Priority(u8)`
pub record Priority : Type 0 where
  pub value : ℕ

pub data ExecutionAttachError : Type 0 where
  already_attached : ExecutionAttachError

pub record TaskControlBlock : Type 0 where
  pub id : TaskId
  pub kind : TaskKind
  pub state : TaskState
  pub priority : Priority
  pub execution : Option ExecutionHandle

unfoldable pub new_kernel : TaskId → Priority → TaskControlBlock
new_kernel id priority = record {
  id = id;
  kind = kernel;
  state = created;
  priority = priority;
  execution = none;
}

unfoldable pub new_userspace : TaskId → Priority → TaskControlBlock
new_userspace id priority = record {
  id = id;
  kind = userspace;
  state = created;
  priority = priority;
  execution = none;
}

unfoldable pub attach :
    TaskControlBlock → TaskControlBlock × Result ExecutionAttachError ExecutionHandle
attach t = elim t.execution [
  | some h ↦ (t, err already_attached)
  | none ↦ (record t { execution = some (for_task t.id) }, ok (for_task t.id))
]

-- `Option::take`: the task loses its handle, and the caller gets it.
unfoldable pub detach : TaskControlBlock → TaskControlBlock × Option ExecutionHandle
detach t = (record t { execution = none }, t.execution)

-- The pairs of the `matches!` in `transition`.
abbrev pub allowed : TaskState → TaskState → Bool
allowed created ready = true
allowed ready running = true
allowed running ready = true
allowed running blocked = true
allowed blocked ready = true
allowed running exited = true
allowed blocked exited = true
allowed _ _ = false

unfoldable pub transition : TaskControlBlock → TaskState → TaskControlBlock × Bool
transition t to =
    let valid = allowed t.state to in (if valid then record t { state = to } else t, valid)
