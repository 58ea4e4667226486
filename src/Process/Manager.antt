-- ===== src/Process/Manager.antt =====
-- The process registry: the state of kernel/src/process/manager.rs.
pub mod Ops
pub mod Slots
pub mod Keeping
pub mod Yield
pub mod Spawn
pub mod Reach
use x.Base.{
  ℕ, zero, suc, ◌+◌, ◌%◌, ◌^◌, Bool, true, false, not, ◌||◌, Option, none, some, List, [], ◌∷◌,
  get_elem?, set, nat_eq, ◌==◌, if◌then◌else◌, checked_add, u32_max, is_some, Result, ok, err,
  ok_or, refuse_if, ◌>>=◌, leb,
}
use x.Scheduler.Task.{TaskId, ExecutionHandle}
use x.Process.AddressSpace.{AddressSpaceId}
use x.Process.Identity.{
  ProcessId, ProcessId_Eq, ProcessExecutionBinding, new_binding, ProcessState, process_state_eq,
  ready, running, exited,
}
use x.Process.Image.{ProcessImage}

abbrev pub max_processes : ℕ
max_processes = 256

pub data ProcessManagerError : Type 0 where
  full invalid_process invalid_transition : ProcessManagerError
  generation_exhausted already_bound binding_mismatch : ProcessManagerError

pub record Slot : Type 0 where
  pub generation : ℕ
  pub image : Option ProcessImage
  pub state : Option ProcessState
  pub binding : Option ProcessExecutionBinding
  pub exit_code : Option ℕ

-- `Slot { generation, ..Slot::EMPTY }`
abbrev pub emptied : ℕ → Slot
emptied generation = record {
  generation = generation;
  image = none;
  state = none;
  binding = none;
  exit_code = none;
}

pub record SpawnedProcess : Type 0 where
  pub id : ProcessId
  pub binding : ProcessExecutionBinding

pub record ReapedProcess : Type 0 where
  pub id : ProcessId
  pub image : ProcessImage
  pub binding : Option ProcessExecutionBinding
  pub exit_code : ℕ

-- `slots` is an array of max_processes slots.
pub record ProcessManager : Type 0 where
  pub slots : List Slot
  pub next_hint : ℕ

abbrev pub replicate : ℕ → Slot → List Slot
replicate zero s = []
replicate (suc n) s = s ∷ replicate n s

abbrev pub new : ProcessManager
new = record { slots = replicate max_processes (emptied 0); next_hint = 0 }

-- `state != Some(expected)`, negated.
abbrev pub has_state : Slot → ProcessState → Bool
has_state s expected = elim s.state [ none ↦ false | some st ↦ process_state_eq st expected ]

-- What `slot` and `slot_mut` make of the entry at the index.
abbrev pub occupant : ProcessId → Option Slot → Result ProcessManagerError Slot
occupant id none = err invalid_process
occupant id (some s) =
    if not (nat_eq s.generation id.generation) || not (is_some s.state)
    then err invalid_process
    else ok s

-- `slot` and `slot_mut`
unfoldable pub slot : ProcessManager → ProcessId → Result ProcessManagerError Slot
slot m id = occupant id (get_elem? m.slots id.index)

-- What is written through `slot_mut`.
unfoldable pub put : ProcessManager → ℕ → Slot → ProcessManager
put m index s = record m { slots = set m.slots index s }

-- The slot that `register_ready` takes, from one at a time; `none` is an index out of the array,
-- which is a panic.
unfoldable pub claim :
    ProcessManager → ProcessImage → ℕ → Slot → ProcessManager × Result ProcessManagerError ProcessId
unfolding put
claim m image index s =
    elim (if leb (s.generation + 1) u32_max then some (s.generation + 1) else none) [
      | none ↦ (m, err generation_exhausted)
      | some generation ↦ (
        record (put m index (record {
          generation = generation;
          image = some image;
          state = some ready;
          binding = none;
          exit_code = none;
        })) { next_hint = (index + 1) % max_processes },
        ok (record { index = index % 2 ^ 32; generation = generation }),
      )
    ]
