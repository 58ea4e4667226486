-- ===== src/Arch/UserExecution.antt =====
-- Userspace execution state: the frame that enters user mode, kernel/src/arch/x86_64/user_return.rs,
-- its preparation, kernel/src/arch/x86_64/user_launch.rs, the bindings of tasks and their registry,
-- kernel/src/arch/x86_64/user_execution.rs, and the hand-over to the next task,
-- kernel/src/arch/x86_64/user_return_transfer.rs. The root of an address space is the address of its frame.
use x.Base.{
  ℕ, ◌/◌, ◌%◌, Bool, not, ◌||◌, Option, none, some, List, nat_eq, is_some, if◌then◌else◌, Result,
  ok, err, map_err, ◌>>=◌,
}
use x.Scheduler.Task.{TaskId, TaskId_Eq}
use x.Process.AddressSpace.{AddressSpaceId, id_eq}
use x.Process.Identity.{ProcessId}
use x.Process.Image.{InitialContext, new_context}
use x.Process.Launch.{UserLaunchPlan}
use x.Arch.Interrupted.{InterruptedState, is_user_valid, privilege, reserved_flag}

pub record UserReturnFrame : Type 0 where
  pub rip : ℕ
  pub cs : ℕ
  pub rflags : ℕ
  pub rsp : ℕ
  pub ss : ℕ

pub data UserReturnError : Type 0 where
  kernel_selector invalid_rflags : UserReturnError

-- `rflags & (1 << 9) != 0`: interrupts are on.
abbrev pub interrupt_flag : ℕ → Bool
interrupt_flag rflags = nat_eq (rflags / 512 % 2) 1

-- `UserReturnFrame::from_initial`
unfoldable pub from_initial : InitialContext → ℕ → ℕ → Result UserReturnError UserReturnFrame
from_initial context user_code user_data =
    if not (nat_eq (privilege user_code) 3) || not (nat_eq (privilege user_data) 3)
    then err kernel_selector
    else if not (reserved_flag 514) || not (interrupt_flag 514)
    then err invalid_rflags
    else ok (record {
      rip = context.entry;
      cs = user_code;
      rflags = 514;
      rsp = context.stack_pointer;
      ss = user_data;
    })

-- `USER_CODE_SELECTOR` and `USER_DATA_SELECTOR`
abbrev pub user_code_selector : ℕ
user_code_selector = 27

abbrev pub user_data_selector : ℕ
user_data_selector = 19

pub record AddressSpaceRoot : Type 0 where
  pub physical_address : ℕ

pub record PreparedUserLaunch : Type 0 where
  pub address_space : AddressSpaceId
  pub root : AddressSpaceRoot
  pub frame : UserReturnFrame

pub data UserLaunchAdapterError : Type 0 where
  invalid_return_frame : UserReturnError → UserLaunchAdapterError

unfoldable pub prepare_launch :
    AddressSpaceRoot → UserLaunchPlan → Result UserLaunchAdapterError PreparedUserLaunch
unfolding new_context from_initial
prepare_launch root plan = do
  context ←
      map_err (λ _. invalid_return_frame invalid_rflags) (new_context plan.entry plan.stack_pointer)
  frame ← map_err invalid_return_frame (from_initial context user_code_selector user_data_selector)
  ok (record { address_space = plan.address_space; root = root; frame = frame })

pub record UserExecutionBinding : Type 0 where
  pub process : ProcessId
  pub task : TaskId
  pub address_space : AddressSpaceId
  pub launch : PreparedUserLaunch
  pub resume : Option InterruptedState

pub data UserExecutionBindingError : Type 0 where
  address_space_mismatch resume_state_already_present invalid_resume_state :
      UserExecutionBindingError

-- `UserExecutionBinding::new`
unfoldable pub new_user_binding :
    ProcessId
    → TaskId
    → AddressSpaceId
    → PreparedUserLaunch
    → Result UserExecutionBindingError UserExecutionBinding
unfolding id_eq
new_user_binding process task address_space launch =
    if not (id_eq launch.address_space address_space)
    then err address_space_mismatch
    else ok (record {
      process = process;
      task = task;
      address_space = address_space;
      launch = launch;
      resume = none;
    })

unfoldable pub install_resume :
    UserExecutionBinding
    → InterruptedState
    → UserExecutionBinding × Result UserExecutionBindingError (Unit {0})
unfolding is_user_valid
install_resume b state =
    if is_some b.resume
    then (b, err resume_state_already_present)
    else if not (is_user_valid state)
    then (b, err invalid_resume_state)
    else (record b { resume = some state }, ok tt)

unfoldable pub clear_resume : UserExecutionBinding → UserExecutionBinding × Option InterruptedState
clear_resume b = (record b { resume = none }, b.resume)

pub record UserExecutionRegistry : Type 0 where
  pub entries : List (Option UserExecutionBinding)

pub data UserExecutionRegistryError : Type 0 where
  already_bound not_found : UserExecutionRegistryError
  binding_error : UserExecutionBindingError → UserExecutionRegistryError

abbrev pub user_task : UserExecutionBinding → TaskId
user_task b = b.task
