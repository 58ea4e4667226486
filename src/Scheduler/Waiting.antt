-- ===== src/Scheduler/Waiting.antt =====
-- Blocking, waking, sleeping and exit: the rest of `impl Scheduler`, kernel/src/scheduler/mod.rs.
use x.Base.{
  ℕ, Bool, true, false, not, ◌||◌, Option, none, some, List, [], ◌∷◌, get_elem?, ◌==◌,
  if◌then◌else◌, Result, ok, err,
}
use x.Scheduler.Task.{TaskId, TaskId_Eq, TaskState_Eq, ready, running, blocked, exited, transition}
use x.Scheduler.WaitQueue
use x.Scheduler.WaitQueue.{WaitQueue}
use x.Scheduler.SleepQueue
use x.Scheduler.SleepQueue.{SleepQueue}
use x.Scheduler.State.{
  Scheduler, SchedulerError, task_not_found, wait_queue_already_contains_task,
  sleep_queue_already_contains_task, Slot, clear, change, state,
}
use x.Scheduler.Ops.{is_state, push_ready}

-- `task_mut(id)` and `transition(Blocked)`, with the two early returns behind them.
unfoldable pub start_block : Scheduler → TaskId → Scheduler × Bool
unfolding change
start_block s id =
    let (s', transitioned) = change s id blocked in
    elim transitioned [ none ↦ (s', false) | some valid ↦ (s', valid) ]

abbrev pub block_on :
    Scheduler → WaitQueue → Option TaskId → Scheduler × WaitQueue × Result SchedulerError TaskId
block_on s waiters none = (s, waiters, err task_not_found)
block_on s waiters (some id) =
    if WaitQueue.has waiters id
    then (s, waiters, err wait_queue_already_contains_task)
    else let (s', transitioned) = start_block s id in
      let (waiters', queued) = WaitQueue.enqueue waiters id in
      if not transitioned then (s', waiters, err task_not_found) else elim queued [
        | ok _ ↦ (record s' { current = none }, waiters', ok id)
        | err _ ↦ ((change s' id running).0, waiters', err wait_queue_already_contains_task)
      ]

unfoldable pub block_current_on :
    Scheduler → WaitQueue → Scheduler × WaitQueue × Result SchedulerError TaskId
unfolding start_block WaitQueue.has WaitQueue.enqueue
block_current_on s waiters = block_on s waiters s.current

abbrev block : Scheduler → Option TaskId → Scheduler × Bool
block s none = (s, false)
block s (some id) =
    let (s', changed) = start_block s id in
    (if changed then record s' { current = none } else s', changed)

unfoldable pub block_current : Scheduler → Scheduler × Bool
unfolding start_block
block_current s = block s s.current

-- The loop of `wake_one`, over the tasks still queued. A task that cannot be pushed is put back at
-- the end, and the loop ends.
unfoldable pub wake_from : Scheduler → List TaskId → Scheduler × List TaskId × Option TaskId
unfolding change push_ready WaitQueue.enqueue
wake_from s [] = (s, [], none)
wake_from s (id ∷ rest) =
    let later = wake_from s rest in
    let (s', readied) = change s id ready in
    let (s'', pushed) = push_ready s' id in
    if not (is_state (state s id) blocked) then later else elim readied [
      | none ↦ later
      | some valid ↦ if not valid then later else if pushed then (s'', rest, some id) else (
        (change s'' id blocked).0,
        (WaitQueue.enqueue (record { queue = rest }) id).0.queue,
        none,
      )
    ]

unfoldable pub wake_one : Scheduler → WaitQueue → Scheduler × WaitQueue × Option TaskId
unfolding wake_from
wake_one s waiters =
    let (s', rest, woken) = wake_from s waiters.queue in
    (s', record waiters { queue = rest }, woken)

abbrev pub sleep :
    Scheduler
    → ℕ
    → SleepQueue
    → Option TaskId
    → Scheduler × SleepQueue × Result SchedulerError TaskId
sleep s deadline sleepers none = (s, sleepers, err task_not_found)
sleep s deadline sleepers (some id) =
    if SleepQueue.has sleepers id
    then (s, sleepers, err sleep_queue_already_contains_task)
    else let (s', transitioned) = start_block s id in
      let (sleepers', inserted) =
        SleepQueue.insert sleepers (record { deadline = deadline; task = id }) in
      if not transitioned
      then (s', sleepers, err task_not_found)
      else if not inserted
      then ((change s' id running).0, sleepers', err sleep_queue_already_contains_task)
      else (record s' { current = none }, sleepers', ok id)

unfoldable pub sleep_current_until :
    Scheduler → ℕ → SleepQueue → Scheduler × SleepQueue × Result SchedulerError TaskId
unfolding start_block SleepQueue.has SleepQueue.insert
sleep_current_until s deadline sleepers = sleep s deadline sleepers s.current

-- One round of the loop of `expire_sleepers`: the task is woken if it is blocked.
unfoldable pub wake : Scheduler → TaskId → Scheduler × Bool
unfolding change push_ready
wake s id =
    let (s', readied) = change s id ready in
    if not (is_state (state s id) blocked) then (s, false) else elim readied [
      | none ↦ (s, false)
      | some valid ↦ if valid then push_ready s' id else (s', false)
    ]

unfoldable pub wake_all : Scheduler → List TaskId → Scheduler × List TaskId
unfolding wake
wake_all s [] = (s, [])
wake_all s (id ∷ ids) =
    let (s', woke) = wake s id in
    let (s'', woken) = wake_all s' ids in (s'', if woke then id ∷ woken else woken)

unfoldable pub expire_sleepers : Scheduler → ℕ → SleepQueue → Scheduler × SleepQueue × List TaskId
unfolding wake_all SleepQueue.expire_until
expire_sleepers s now sleepers =
    let (sleepers', expired) = SleepQueue.expire_until sleepers now in
    let (s', woken) = wake_all s expired in (s', sleepers', woken)

-- The body of `exit_current`, on what the current task's slot holds.
abbrev leave : Scheduler → TaskId → Option Slot → Scheduler × Bool
leave s id none = (s, false)
leave s id (some none) = (s, false)
leave s id (some (some t)) =
    let (t', valid) = transition t exited in
    if not (t.id == id) || not valid
    then (s, false)
    else (record (clear s id) { current = none }, true)

abbrev exit_from : Scheduler → Option TaskId → Scheduler × Bool
exit_from s none = (s, false)
exit_from s (some id) = leave s id (get_elem? s.tasks id.index)

unfoldable pub exit_current : Scheduler → Scheduler × Bool
unfolding transition
exit_current s = exit_from s s.current
