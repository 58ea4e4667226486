-- ===== src/Process/Manager/Ops.antt =====
-- The operations of `ProcessManager`, kernel/src/process/manager.rs. An operation that takes
-- `&mut self` returns the registry beside its result.
use x.Base.{
  ℕ, zero, suc, ◌+◌, ◌%◌, Bool, true, false, not, ◌||◌, Option, none, some, get_elem?, ◌==◌,
  if◌then◌else◌, is_some, Result, ok, err, ok_or, refuse_if, ◌>>=◌,
}
use x.Scheduler.Task.{TaskId, ExecutionHandle}
use x.Process.AddressSpace.{AddressSpaceId, id_eq}
use x.Process.Identity.{
  ProcessId, ProcessId_Eq, ProcessExecutionBinding, new_binding, ProcessState, ready, running,
  exited,
}
use x.Process.Image.{ProcessImage}
use x.Process.Manager.{
  ProcessManager, ProcessManagerError, full, invalid_process, invalid_transition, already_bound,
  binding_mismatch, Slot, SpawnedProcess, ReapedProcess, max_processes, emptied, has_state, slot,
  put, claim,
}

-- The loop of `register_ready`: the rounds left, and the offset. An index outside the array would
-- be a panic; it is below max_processes.
unfoldable pub register_from :
    ℕ → ℕ → ProcessManager → ProcessImage → ProcessManager × Result ProcessManagerError ProcessId
unfolding claim
register_from zero offset m image = (m, err full)
register_from (suc rounds) offset m image =
    let rest = register_from rounds (suc offset) m image in
    let index = (m.next_hint + offset) % max_processes in
    elim (get_elem? m.slots index) [
      | none ↦ (m, err full)
      | some s ↦ if is_some s.state then rest else claim m image index s
    ]

unfoldable pub register_ready :
    ProcessManager → ProcessImage → ProcessManager × Result ProcessManagerError ProcessId
register_ready m image = register_from max_processes 0 m image

unfoldable pub state : ProcessManager → ProcessId → Result ProcessManagerError ProcessState
unfolding slot
state m id = slot m id >>= λ s. ok_or s.state invalid_process

unfoldable pub image : ProcessManager → ProcessId → Result ProcessManagerError ProcessImage
unfolding slot
image m id = slot m id >>= λ s. ok_or s.image invalid_process

unfoldable pub binding :
    ProcessManager → ProcessId → Result ProcessManagerError (Option ProcessExecutionBinding)
unfolding slot
binding m id = slot m id >>= λ s. ok s.binding

unfoldable pub exit_code : ProcessManager → ProcessId → Result ProcessManagerError (Option ℕ)
unfolding slot
exit_code m id = slot m id >>= λ s. ok s.exit_code

-- The checks of `attach_execution` on the slot, and the binding to be written.
unfoldable pub bindable :
    ProcessId
    → TaskId
    → ExecutionHandle
    → AddressSpaceId
    → Slot
    → Result ProcessManagerError ProcessExecutionBinding
unfolding new_binding id_eq
bindable id task execution address_space s = do
  _ ← refuse_if (is_some s.binding) already_bound
  held ← ok_or s.image invalid_process
  _ ← refuse_if (not (id_eq held.address_space.id address_space)) binding_mismatch
  ok_or (new_binding id task execution address_space) binding_mismatch

unfoldable pub attach_execution :
    ProcessManager
    → ProcessId
    → TaskId
    → ExecutionHandle
    → AddressSpaceId
    → ProcessManager × Result ProcessManagerError ProcessExecutionBinding
unfolding slot bindable put
attach_execution m id task execution address_space = elim (slot m id) [
  | err e ↦ (m, err e)
  | ok s ↦ elim (bindable id task execution address_space s) [
    | err e ↦ (m, err e)
    | ok b ↦ (put m id.index (record s { binding = some b }), ok b)
  ]
]

unfoldable pub remove_registered :
    ProcessManager → ProcessId → ProcessManager × Result ProcessManagerError (Unit {0})
unfolding slot put
remove_registered m id = elim (slot m id) [
  | err e ↦ (m, err e)
  | ok s ↦ (put m id.index (emptied s.generation), ok tt)
]

-- The binding of a process that was just registered, which is taken back if it fails.
unfoldable pub bind_registered :
    ProcessManager
    → ProcessId
    → TaskId
    → ExecutionHandle
    → AddressSpaceId
    → ProcessManager × Result ProcessManagerError SpawnedProcess
unfolding attach_execution remove_registered
bind_registered m id task execution address_space =
    let (m2, bound) = attach_execution m id task execution address_space in
    elim bound [
      | ok b ↦ (m2, ok (record { id = id; binding = b }))
      | err e ↦ ((remove_registered m2 id).0, err e)
    ]

unfoldable pub spawn_ready :
    ProcessManager
    → ProcessImage
    → TaskId
    → ExecutionHandle
    → AddressSpaceId
    → ProcessManager × Result ProcessManagerError SpawnedProcess
unfolding register_ready bind_registered
spawn_ready m image task execution address_space =
    let (m1, registered) = register_ready m image in
    elim registered [
      | err e ↦ (m1, err e)
      | ok id ↦ bind_registered m1 id task execution address_space
    ]

unfoldable pub start :
    ProcessManager → ProcessId → ProcessManager × Result ProcessManagerError (Unit {0})
unfolding slot put
start m id = elim (slot m id) [
  | err e ↦ (m, err e)
  | ok s ↦
      if not (has_state s ready)
      then (m, err invalid_transition)
      else if not (is_some s.binding)
      then (m, err binding_mismatch)
      else (put m id.index (record s { state = some running }), ok tt)
]

-- The checks of `yield_to` on both slots.
unfoldable pub yieldable : Slot → Slot → Result ProcessManagerError (Unit {0})
yieldable current successor = do
  _ ←
      refuse_if (not (has_state current running) || not (has_state successor ready))
        invalid_transition
  refuse_if (not (is_some current.binding) || not (is_some successor.binding)) binding_mismatch

-- The writes of `yield_to`: the state of the successor is read again after the first of them.
unfoldable pub hand_over :
    ProcessManager
    → ProcessId
    → ProcessId
    → Slot
    → ProcessManager × Result ProcessManagerError (Unit {0})
unfolding put
hand_over m current successor c =
    let m1 = put m current.index (record c { state = some ready }) in
    elim (get_elem? m1.slots successor.index) [
      | none ↦ (m1, err invalid_process)
      | some s ↦
          if not (has_state s ready)
          then (put m1 current.index (record c { state = some running }), err invalid_transition)
          else (put m1 successor.index (record s { state = some running }), ok tt)
    ]

unfoldable pub yield_to :
    ProcessManager → ProcessId → ProcessId → ProcessManager × Result ProcessManagerError (Unit {0})
unfolding slot yieldable hand_over
yield_to m current successor =
    if current == successor then (m, err invalid_transition) else elim (slot m current) [
      | err e ↦ (m, err e)
      | ok c ↦ elim (slot m successor) [
        | err e ↦ (m, err e)
        | ok s ↦ elim (yieldable c s) [
          | err e ↦ (m, err e)
          | ok _ ↦ hand_over m current successor c
        ]
      ]
    ]

unfoldable pub request_exit :
    ProcessManager → ProcessId → ℕ → ProcessManager × Result ProcessManagerError (Unit {0})
unfolding slot put
request_exit m id code = elim (slot m id) [
  | err e ↦ (m, err e)
  | ok s ↦
      if not (has_state s ready || has_state s running)
      then (m, err invalid_transition)
      else (put m id.index (record s { state = some exited; exit_code = some code }), ok tt)
]

unfoldable pub exit :
    ProcessManager → ProcessId → ProcessManager × Result ProcessManagerError (Unit {0})
exit m id = request_exit m id 0

-- The checks of `reap`, and the record it returns.
unfoldable pub reapable : ProcessId → Slot → Result ProcessManagerError ReapedProcess
reapable id s = do
  _ ← refuse_if (not (has_state s exited)) invalid_transition
  image ← ok_or s.image invalid_process
  exit_code ← ok_or s.exit_code invalid_process
  ok (record { id = id; image = image; binding = s.binding; exit_code = exit_code })

unfoldable pub reap :
    ProcessManager → ProcessId → ProcessManager × Result ProcessManagerError ReapedProcess
unfolding slot reapable put
reap m id = elim (slot m id) [
  | err e ↦ (m, err e)
  | ok s ↦ elim (reapable id s) [
    | err e ↦ (m, err e)
    | ok r ↦ (record (put m id.index (emptied s.generation)) { next_hint = id.index }, ok r)
  ]
]

unfoldable pub abort_ready :
    ProcessManager → ProcessId → ProcessManager × Result ProcessManagerError (Unit {0})
unfolding slot remove_registered
abort_ready m id = elim (slot m id) [
  | err e ↦ (m, err e)
  | ok s ↦ if not (has_state s ready) then (m, err invalid_transition) else remove_registered m id
]

unfoldable pub contains : ProcessManager → ProcessId → Bool
unfolding slot
contains m id = elim (slot m id) [ ok _ ↦ true | err _ ↦ false ]
