-- ===== src/Arch/UserRegistry.antt =====
-- The registry of userspace bindings, `UserExecutionRegistry` of kernel/src/arch/x86_64/user_execution.rs.
use x.Base.{ℕ, Option, none, some, [], ◌∷◌, ◌++◌, is_some, if◌then◌else◌, Result, ok, err, map_err}
use x.Scheduler.Task.{TaskId}
use x.Arch.Interrupted.{InterruptedState}
use x.Arch.Slots.{find_entry, update_entry, vacate, count_entries}
use x.Arch.UserExecution
use x.Arch.UserExecution.{
  UserExecutionBinding, UserExecutionRegistry, UserExecutionRegistryError, already_bound, not_found,
  binding_error, user_task,
}

abbrev pub new : UserExecutionRegistry
new = record { entries = [] }

unfoldable pub get : UserExecutionRegistry → TaskId → Option UserExecutionBinding
unfolding find_entry
get r task = find_entry user_task r.entries task

-- A new binding goes behind all others.
unfoldable pub insert :
    UserExecutionRegistry
    → UserExecutionBinding
    → UserExecutionRegistry × Result UserExecutionRegistryError (Unit {0})
unfolding get
insert r b =
    if is_some (get r b.task)
    then (r, err already_bound)
    else (record r { entries = r.entries ++ some b ∷ [] }, ok tt)

unfoldable pub remove :
    UserExecutionRegistry
    → TaskId
    → UserExecutionRegistry × Result UserExecutionRegistryError UserExecutionBinding
unfolding get vacate
remove r task = elim (get r task) [
  | none ↦ (r, err not_found)
  | some b ↦ (record r { entries = vacate user_task r.entries task }, ok b)
]

unfoldable pub install_resume :
    UserExecutionRegistry
    → TaskId
    → InterruptedState
    → UserExecutionRegistry × Result UserExecutionRegistryError (Unit {0})
unfolding get update_entry UserExecution.install_resume
install_resume r task state = elim (get r task) [
  | none ↦ (r, err not_found)
  | some b ↦
      let (b', result) = UserExecution.install_resume b state in
      (
        record r { entries = update_entry user_task r.entries task b' },
        map_err binding_error result,
      )
]

unfoldable pub clear_resume :
    UserExecutionRegistry
    → TaskId
    → UserExecutionRegistry × Result UserExecutionRegistryError (Option InterruptedState)
unfolding get update_entry UserExecution.clear_resume
clear_resume r task = elim (get r task) [
  | none ↦ (r, err not_found)
  | some b ↦
      let (b', state) = UserExecution.clear_resume b in
      (record r { entries = update_entry user_task r.entries task b' }, ok state)
]

unfoldable pub count : UserExecutionRegistry → ℕ
unfolding count_entries
count r = count_entries user_task r.entries
