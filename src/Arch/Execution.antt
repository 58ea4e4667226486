-- ===== src/Arch/Execution.antt =====
-- The execution state of a kernel task, kernel/src/arch/x86_64/execution.rs. The stack is its address and
-- its length; what the allocator answers to a new task, and the address of the entry trampoline of
-- kernel/src/arch/x86_64/context_switch.rs, are arguments.
use x.Base.{
  ℕ, Bool, false, not, ◌&&◌, ◌||◌, ◌==◌, Option, none, some, nat_eq, is_some, if◌then◌else◌,
  checked_add, Result, ok, err, ok_or, ◌>>=◌,
}
use x.Scheduler.Task.{TaskId, TaskId_Eq}
use x.Arch.Context.{Context, ActivationRecord, is_initialized, bootstrap_context}
use x.Arch.Interrupted.{SavedRegisters, InterruptReturnFrame, InterruptedState, is_valid, capture}

abbrev pub kernel_stack_size : ℕ
kernel_stack_size = 32768

pub data ExecutionError : Type 0 where
  stack_allocation_failed invalid_stack interrupted_state_already_present : ExecutionError

pub record X86ExecutionBinding : Type 0 where
  pub task_id : TaskId
  pub stack_start : ℕ
  pub stack_len : ℕ
  pub activation : ActivationRecord
  pub context : Context
  pub interrupted : Option InterruptedState

-- The address of the new stack, if there is memory for it, and that of the activation record.
pub record Allocation : Type 0 where
  pub stack : Option ℕ
  pub activation : ℕ
  pub trampoline : ℕ

unfoldable pub new_binding : Allocation → TaskId → ℕ → Result ExecutionError X86ExecutionBinding
unfolding bootstrap_context
new_binding a id entry = do
  start ← ok_or a.stack stack_allocation_failed
  let activation : ActivationRecord = record { task_id = id; entry = entry; pointer = a.activation }
  stack_top ← ok_or (checked_add start kernel_stack_size) invalid_stack
  context ← ok_or (bootstrap_context stack_top activation a.trampoline) invalid_stack
  ok (record {
    task_id = id;
    stack_start = start;
    stack_len = kernel_stack_size;
    activation = activation;
    context = context;
    interrupted = none;
  })

unfoldable pub stack_top : X86ExecutionBinding → Option ℕ
stack_top b = checked_add b.stack_start b.stack_len

unfoldable pub install_interrupted :
    X86ExecutionBinding → InterruptedState → X86ExecutionBinding × Result ExecutionError (Unit {0})
unfolding is_valid
install_interrupted b snapshot =
    if is_some b.interrupted
    then (b, err interrupted_state_already_present)
    else if not (is_valid snapshot)
    then (b, err invalid_stack)
    else (record b { interrupted = some snapshot }, ok tt)

-- `capture_interrupted`; `none` is the panic of the capture.
unfoldable pub capture_interrupted :
    X86ExecutionBinding
    → SavedRegisters
    → InterruptReturnFrame
    → Option (X86ExecutionBinding × Result ExecutionError (Unit {0}))
unfolding install_interrupted capture
capture_interrupted b registers frame =
    if is_some b.interrupted
    then some (b, err interrupted_state_already_present)
    else elim (capture registers frame) [
      | none ↦ none
      | some snapshot ↦ some (install_interrupted b snapshot)
    ]

unfoldable pub take_interrupted :
    X86ExecutionBinding → X86ExecutionBinding × Option InterruptedState
take_interrupted b = (record b { interrupted = none }, b.interrupted)

unfoldable pub is_bootstrapped : X86ExecutionBinding → Bool
unfolding is_initialized
is_bootstrapped b =
    is_initialized b.context
    && nat_eq b.stack_len kernel_stack_size
    && b.activation.task_id == b.task_id

unfoldable pub validate : X86ExecutionBinding → Result ExecutionError (Unit {0})
unfolding is_initialized is_valid stack_top
validate b =
    if not (nat_eq b.stack_len kernel_stack_size)
      || not (is_initialized b.context)
      || not (b.activation.task_id == b.task_id)
      || not (nat_eq b.context.r12 b.activation.pointer)
      || elim b.interrupted [ none ↦ false | some s ↦ not (is_valid s) ]
      || not (is_some (stack_top b))
    then err invalid_stack
    else ok tt
