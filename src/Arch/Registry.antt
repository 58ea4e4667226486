-- ===== src/Arch/Registry.antt =====
-- The registry of kernel execution bindings, kernel/src/arch/x86_64/execution_registry.rs, the return
-- path that it proposes, kernel/src/arch/x86_64/preemption_plan.rs, and the check of a transition,
-- kernel/src/arch/x86_64/dispatch.rs.
use x.Base.{
  ℕ, Bool, true, false, not, Option, none, some, List, [], get_elem?, is_some, ◌==◌, if◌then◌else◌,
  Result, ok, err, map_err, ok_or, refuse_if, ◌>>=◌,
}
use x.Scheduler.Task.{TaskId, TaskId_Eq, ExecutionHandle}
use x.Arch.Interrupted.{SavedRegisters, InterruptReturnFrame, InterruptedState, kernel_iret_words}
use x.Arch.Context.{Context, is_initialized}
use x.Arch.Execution
use x.Arch.Execution.{
  X86ExecutionBinding, ExecutionError, invalid_stack, Allocation, new_binding, stack_top, validate,
}
use x.Arch.Slots.{find_entry, update_entry, vacate, fill, count_entries, index_of}

pub data RegistryInsertError : Type 0 where
  already_bound allocation : RegistryInsertError

pub data InterruptCaptureError : Type 0 where
  task_not_found : InterruptCaptureError
  execution_error : ExecutionError → InterruptCaptureError

pub record ExecutionRegistry : Type 0 where
  pub entries : List (Option X86ExecutionBinding)

pub data PreemptionPlan : Type 0 where
  return_to_context : TaskId → Context → PreemptionPlan
  iret_kernel : TaskId → InterruptedState → PreemptionPlan

unfoldable pub plan_task : PreemptionPlan → TaskId
plan_task (return_to_context id c) = id
plan_task (iret_kernel id s) = id

unfoldable pub is_kernel_iret : PreemptionPlan → Bool
is_kernel_iret (return_to_context id c) = false
is_kernel_iret (iret_kernel id s) = true

abbrev pub task_of : X86ExecutionBinding → TaskId
task_of b = b.task_id

abbrev pub new : ExecutionRegistry
new = record { entries = [] }

unfoldable pub get : ExecutionRegistry → TaskId → Option X86ExecutionBinding
unfolding find_entry
get r id = find_entry task_of r.entries id

unfoldable pub put : ExecutionRegistry → TaskId → X86ExecutionBinding → ExecutionRegistry
unfolding update_entry
put r id b = record r { entries = update_entry task_of r.entries id b }

unfoldable pub insert :
    Allocation
    → ExecutionRegistry
    → ExecutionHandle
    → ℕ
    → ExecutionRegistry × Result RegistryInsertError (Unit {0})
unfolding get new_binding fill
insert a r handle entry =
    if is_some (get r handle.task_id)
    then (r, err already_bound)
    else elim (new_binding a handle.task_id entry) [
      | err _ ↦ (r, err allocation)
      | ok b ↦ (record r { entries = fill task_of r.entries b }, ok tt)
    ]

unfoldable pub remove : ExecutionRegistry → ExecutionHandle → ExecutionRegistry × Bool
unfolding get vacate
remove r handle =
    if is_some (get r handle.task_id)
    then (record r { entries = vacate task_of r.entries handle.task_id }, true)
    else (r, false)

unfoldable pub kernel_stack_top : ExecutionRegistry → TaskId → Option ℕ
unfolding get stack_top
kernel_stack_top r id = elim (get r id) [ none ↦ none | some b ↦ stack_top b ]

-- `capture_interrupted`; `none` is a panic of the capture.
unfoldable pub capture_interrupted :
    ExecutionRegistry
    → TaskId
    → SavedRegisters
    → InterruptReturnFrame
    → Option (ExecutionRegistry × Result InterruptCaptureError InterruptedState)
unfolding get put Execution.capture_interrupted
capture_interrupted r id registers frame = elim (get r id) [
  | none ↦ some (r, err task_not_found)
  | some b ↦ elim (Execution.capture_interrupted b registers frame) [
    | none ↦ none
    | some (b', result) ↦ some (
      put r id b',
      map_err execution_error result >>= λ _. ok_or b'.interrupted (execution_error invalid_stack),
    )
  ]
]

unfoldable pub preemption_plan : ExecutionRegistry → TaskId → Option PreemptionPlan
unfolding get kernel_iret_words is_initialized
preemption_plan r id = elim (get r id) [
  | none ↦ none
  | some b ↦
      let saved : Option PreemptionPlan =
        if is_initialized b.context then some (return_to_context id b.context) else none in
      elim b.interrupted [
        | none ↦ saved
        | some state ↦
            if is_some (kernel_iret_words state.return_state)
            then some (iret_kernel id state)
            else saved
      ]
]

unfoldable pub take_kernel_preempt_state :
    ExecutionRegistry → TaskId → ExecutionRegistry × Option InterruptedState
unfolding get put kernel_iret_words Execution.take_interrupted
take_kernel_preempt_state r id = elim (get r id) [
  | none ↦ (r, none)
  | some b ↦ elim b.interrupted [
    | none ↦ (r, none)
    | some state ↦
        if not (is_some (kernel_iret_words state.return_state))
        then (r, none)
        else let (b', taken) = Execution.take_interrupted b in (put r id b', taken)
  ]
]

-- The binding at an index.
unfoldable pub binding_at : ExecutionRegistry → ℕ → Option X86ExecutionBinding
binding_at r i = elim (get_elem? r.entries i) [ none ↦ none | some e ↦ e ]

-- `context_pair_mut`: the context to save into and the context to resume.
unfoldable pub context_pair : ExecutionRegistry → TaskId → TaskId → Option (Context × Context)
unfolding index_of binding_at
context_pair r current next =
    if current == next then none else elim (index_of task_of r.entries current) [
      | none ↦ none
      | some i ↦ elim (index_of task_of r.entries next) [
        | none ↦ none
        | some j ↦ elim (binding_at r i) [
          | none ↦ none
          | some c ↦ elim (binding_at r j) [ none ↦ none | some n ↦ some (c.context, n.context) ]
        ]
      ]
    ]

unfoldable pub contains : ExecutionRegistry → ExecutionHandle → Bool
unfolding get
contains r handle = is_some (get r handle.task_id)

unfoldable pub count : ExecutionRegistry → ℕ
unfolding count_entries
count r = count_entries task_of r.entries

unfoldable pub is_valid : ExecutionRegistry → ExecutionHandle → Bool
unfolding get validate
is_valid r handle = elim (get r handle.task_id) [
  | none ↦ false
  | some b ↦ elim (validate b) [ ok _ ↦ true | err _ ↦ false ]
]

pub data DispatchError : Type 0 where
  missing_execution invalid_execution same_task : DispatchError

unfoldable pub validate_transition :
    ExecutionRegistry → Option TaskId → TaskId → Result DispatchError (Unit {0})
unfolding get validate
validate_transition r previous next = do
  b ← ok_or (get r next) missing_execution
  _ ← map_err (λ _. invalid_execution) (validate b)
  refuse_if (elim previous [ none ↦ false | some p ↦ p == next ]) same_task
