-- ===== src/Process/Lifecycle.antt =====
-- The typed life cycle of a process, kernel/src/process/state.rs.
use x.Base.{not, ◌==◌, Result, ok, err, if◌then◌else◌}
use x.Process.Identity.{ProcessState, ProcessState_Eq, ready, running, exited}
use x.Process.Image.{ProcessImage}

pub record ReadyProcess : Type 0 where
  pub image : ProcessImage
  pub state : ProcessState

pub record RunningProcess : Type 0 where
  pub image : ProcessImage
  pub state : ProcessState

pub record ExitedProcess : Type 0 where
  pub image : ProcessImage
  pub state : ProcessState

pub data ProcessTransitionError : Type 0 where
  invalid_transition : ProcessTransitionError

unfoldable pub from_image : ProcessImage → ReadyProcess
from_image image = record { image = image; state = ready }

unfoldable pub start : ReadyProcess → Result ProcessTransitionError RunningProcess
start p =
    if not (p.state == ready)
    then err invalid_transition
    else ok (record { image = p.image; state = running })

unfoldable pub exit : RunningProcess → ExitedProcess
exit p = record { image = p.image; state = exited }
