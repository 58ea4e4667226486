-- ===== src/Process/Identity.antt =====
-- Process identities, execution bindings and process states, kernel/src/process/identity.rs and
-- kernel/src/process/state.rs.
use x.Base.{
  ℕ, ◌≡◌, ◌↔◌, Bool, true, false, not, ◌&&◌, ◌||◌, Option, none, some, nat_eq, PartialEq,
  if◌then◌else◌, arith,
}
use x.Scheduler.Task.{TaskId, ExecutionHandle}
use x.Process.AddressSpace.{AddressSpaceId}

-- A slot index and the generation of its occupant, both `u32`.
pub record ProcessId : Type 0 where
  pub index : ℕ
  pub generation : ℕ

unfoldable pub process_id_eq : ProcessId → ProcessId → Bool
process_id_eq a b = nat_eq a.index b.index && nat_eq a.generation b.generation

pub process_id_eq_iff : (a b : ProcessId) → (process_id_eq a b ≡ true) ↔ (a ≡ b)
unfolding process_id_eq
process_id_eq_iff a b = ground arith

instance abbrev pub ProcessId_Eq : PartialEq ProcessId
ProcessId_Eq = record { same = process_id_eq; same_iff = process_id_eq_iff }

pub record ProcessExecutionBinding : Type 0 where
  pub process : ProcessId
  pub task : TaskId
  pub execution : ExecutionHandle
  pub address_space : AddressSpaceId

-- `ProcessExecutionBinding::new`
unfoldable pub new_binding :
    ProcessId → TaskId → ExecutionHandle → AddressSpaceId → Option ProcessExecutionBinding
new_binding process task execution address_space =
    let execution_task = execution.task_id in
    if not (nat_eq execution_task.index task.index)
      || not (nat_eq execution_task.generation task.generation)
    then none
    else some (record {
      process = process;
      task = task;
      execution = execution;
      address_space = address_space;
    })

pub data ProcessState : Type 0 where
  constructing ready running exited : ProcessState

abbrev pub process_state_eq : ProcessState → ProcessState → Bool
process_state_eq constructing constructing = true
process_state_eq ready ready = true
process_state_eq running running = true
process_state_eq exited exited = true
process_state_eq _ _ = false

pub process_state_eq_iff : (a b : ProcessState) → (process_state_eq a b ≡ true) ↔ (a ≡ b)
process_state_eq_iff a b = ground arith

instance abbrev pub ProcessState_Eq : PartialEq ProcessState
ProcessState_Eq = record { same = process_state_eq; same_iff = process_state_eq_iff }
