-- ===== src/Arch/CpuLocal.antt =====
-- The state of the one processor: the hand-over cells of kernel/src/arch/x86_64/cpu_local.rs, the stack
-- pointer that the task state segment holds for the kernel, kernel/src/arch/x86_64/gdt.rs, and the pending
-- flag and the ticks of the timer of kernel/src/arch/x86_64/idt.rs. A pointer to a runtime is its address, 0 the null pointer.
use x.Base.{
  ℕ, Bool, false, not, Option, none, some, nat_eq, is_some, if◌then◌else◌, Result, ok, err,
}
use x.Scheduler.Task.{TaskId}
use x.Syscall.{SyscallReturnAction}
use x.Arch.Interrupted.{SavedRegisters, InterruptReturnFrame, InterruptedState, is_valid, capture}

pub record CpuLocalState : Type 0 where
  pub current_task : Option TaskId
  pub runtime : Option ℕ
  pub system_runtime : Option ℕ
  pub syscall_action : Option SyscallReturnAction
  pub interrupted : Option (TaskId × InterruptedState)

pub record Cpu : Type 0 where
  pub local : CpuLocalState
  pub kernel_stack_top : ℕ
  pub timer_pending : Bool
  pub timer_ticks : ℕ

pub data RuntimeBindingError : Type 0 where
  null already_bound : RuntimeBindingError

pub data CaptureError : Type 0 where
  no_current_task already_pending invalid_state : CaptureError

abbrev pub new : CpuLocalState
new = record {
  current_task = none;
  runtime = none;
  system_runtime = none;
  syscall_action = none;
  interrupted = none;
}

unfoldable pub publish_syscall_action : CpuLocalState → SyscallReturnAction → CpuLocalState
publish_syscall_action c action = record c { syscall_action = some action }

unfoldable pub take_syscall_action : CpuLocalState → CpuLocalState × Option SyscallReturnAction
take_syscall_action c = (record c { syscall_action = none }, c.syscall_action)

unfoldable pub bind_runtime :
    CpuLocalState → ℕ → CpuLocalState × Result RuntimeBindingError (Unit {0})
bind_runtime c pointer =
    if is_some c.runtime
    then (c, err already_bound)
    else if nat_eq pointer 0
    then (c, err null)
    else (record c { runtime = some pointer }, ok tt)

unfoldable pub unbind_runtime : CpuLocalState → CpuLocalState
unbind_runtime c = record c { runtime = none }

unfoldable pub bind_system_runtime :
    CpuLocalState → ℕ → CpuLocalState × Result RuntimeBindingError (Unit {0})
bind_system_runtime c pointer =
    if is_some c.system_runtime
    then (c, err already_bound)
    else if nat_eq pointer 0
    then (c, err null)
    else (record c { system_runtime = some pointer }, ok tt)

unfoldable pub unbind_system_runtime : CpuLocalState → CpuLocalState
unbind_system_runtime c = record c { system_runtime = none }

-- `capture_interrupted`; `none` is the panic of the capture.
unfoldable pub capture_interrupted :
    CpuLocalState
    → SavedRegisters
    → InterruptReturnFrame
    → Option (CpuLocalState × Result CaptureError TaskId)
unfolding capture is_valid
capture_interrupted c registers frame = elim c.current_task [
  | none ↦ some (c, err no_current_task)
  | some task ↦
      if is_some c.interrupted
      then some (c, err already_pending)
      else elim (capture registers frame) [
        | none ↦ none
        | some snapshot ↦
            if not (is_valid snapshot)
            then some (c, err invalid_state)
            else some (record c { interrupted = some (task, snapshot) }, ok task)
      ]
]

unfoldable pub interrupted_task : CpuLocalState → Option TaskId
interrupted_task c = elim c.interrupted [ none ↦ none | some (task, _) ↦ some task ]

unfoldable pub take_interrupted : CpuLocalState → CpuLocalState × Option (TaskId × InterruptedState)
take_interrupted c = (record c { interrupted = none }, c.interrupted)

unfoldable pub has_interrupted : CpuLocalState → Bool
has_interrupted c = is_some c.interrupted

-- `cpu_local::local().set_current_task(task)` and `gdt::set_kernel_stack_top(stack_top)`
unfoldable pub set_current_task : Cpu → Option TaskId → Cpu
set_current_task c task = record c { local = record c.local { current_task = task } }

unfoldable pub set_kernel_stack_top : Cpu → ℕ → Cpu
set_kernel_stack_top c stack_top = record c { kernel_stack_top = stack_top }

-- `idt::take_timer_pending()`
unfoldable pub take_timer_pending : Cpu → Cpu × Bool
take_timer_pending c = (record c { timer_pending = false }, c.timer_pending)
