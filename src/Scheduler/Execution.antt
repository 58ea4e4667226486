-- ===== src/Scheduler/Execution.antt =====
-- The minimal execution binding, kernel/src/scheduler/execution.rs.
use x.Base.{Bool, true, false, Result, ok}
use x.Scheduler.Task.{TaskId}

pub record ExecutionState : Type 0 where
  pub task_id : TaskId
  pub bootstrapped : Bool

unfoldable pub new_execution : TaskId → ExecutionState
new_execution task_id = record { task_id = task_id; bootstrapped = false }

unfoldable pub is_bootstrapped : ExecutionState → Bool
is_bootstrapped e = e.bootstrapped

unfoldable pub mark_bootstrapped : ExecutionState → ExecutionState
mark_bootstrapped e = record e { bootstrapped = true }

-- The error type has no value.
unfoldable pub validate : ExecutionState → Result ⊥ (Unit {0})
validate e = ok tt
