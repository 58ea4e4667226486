-- ===== src/Scheduler/Ops.antt =====
-- The operations of `impl Scheduler`, kernel/src/scheduler/mod.rs. A `&mut self` method returns the
-- new scheduler, and any queue that it was lent, beside its result.
use x.Base.{
  Bool, false, not, ◌&&◌, ◌||◌, Option, none, some, get_elem?, nat_eq, ◌==◌, if◌then◌else◌, Result,
  ok, err,
}
use x.Scheduler.Task.{
  TaskId, TaskId_Eq, TaskState, TaskState_Eq, created, ready, running, exited, ExecutionHandle,
  attach, detach, transition,
}
use x.Scheduler.RunQueue
use x.Scheduler.State.{
  Scheduler, SchedulerError, task_not_found, execution_already_attached, task_not_created,
  current_task_mismatch, successor_not_ready, Slot, task, write, clear, change, state,
  DispatchDecision,
}

-- `o == Some(id)`
abbrev pub is_task : Option TaskId → TaskId → Bool
is_task none id = false
is_task (some j) id = j == id

-- `o == Some(st)`
abbrev pub is_state : Option TaskState → TaskState → Bool
is_state none st = false
is_state (some u) st = u == st

unfoldable pub attach_execution :
    Scheduler → TaskId → Scheduler × Result SchedulerError ExecutionHandle
attach_execution s id = elim (task s id) [
  | none ↦ (s, err task_not_found)
  | some t ↦
      let (t', result) = attach t in
      elim result [ err e ↦ (s, err execution_already_attached) | ok h ↦ (write s id t', ok h) ]
]

-- The body of `destroy_created`, on what the slot holds.
abbrev destroy :
    Scheduler → TaskId → Option Slot → Scheduler × Result SchedulerError ExecutionHandle
destroy s id none = (s, err task_not_found)
destroy s id (some none) = (s, err task_not_found)
destroy s id (some (some t)) =
    if not (t.id == id) || not (t.state == created)
    then (s, err task_not_created)
    else let (t', handle) = detach t in
      elim handle [ none ↦ (s, err task_not_created) | some h ↦ (clear s id, ok h) ]

unfoldable pub destroy_created :
    Scheduler → TaskId → Scheduler × Result SchedulerError ExecutionHandle
unfolding detach
destroy_created s id = destroy s id (get_elem? s.tasks id.index)

-- `self.ready.push(id)`
unfoldable pub push_ready : Scheduler → TaskId → Scheduler × Bool
unfolding RunQueue.push
push_ready s id = let (q, done) = RunQueue.push s.ready id in (record s { ready = q }, done)

-- `self.ready.pop()`
unfoldable pub pop_ready : Scheduler → Scheduler × Option TaskId
unfolding RunQueue.pop
pop_ready s = let (q, id) = RunQueue.pop s.ready in (record s { ready = q }, id)

unfoldable pub make_ready : Scheduler → TaskId → Scheduler × Bool
unfolding change push_ready RunQueue.has
make_ready s id =
    if RunQueue.has s.ready id
    then (s, false)
    else let (s', transitioned) = change s id ready in
      elim transitioned [
        | none ↦ (s', false)
        | some valid ↦ if valid then push_ready s' id else (s', false)
      ]

-- `tasks.get(i).and_then(Option::as_ref).is_some_and(|task| task.id() == id && task.state() == st)`
abbrev holds : Option Slot → TaskId → TaskState → Bool
holds none id st = false
holds (some none) id st = false
holds (some (some t)) id st = t.id == id && t.state == st

-- The commit of `terminate_current_to`, after the checks; every `?` and `return` keeps what was
-- changed before it.
unfoldable pub start_successor : Scheduler → TaskId → Scheduler × Result SchedulerError TaskId
unfolding transition
start_successor s successor = elim (get_elem? s.tasks successor.index) [
  | none ↦ (s, err successor_not_ready)
  | some slot ↦ elim slot [
    | none ↦ (s, err successor_not_ready)
    | some t ↦
        let (t', valid) = transition t running in
        if valid
        then (
          record s { tasks = (write s successor t').tasks; current = some successor },
          ok successor,
        )
        else (s, err successor_not_ready)
  ]
]

unfoldable pub retire_current :
    Scheduler → TaskId → TaskId → Scheduler × Result SchedulerError TaskId
unfolding transition pop_ready start_successor
retire_current s current successor = elim (get_elem? s.tasks current.index) [
  | none ↦ (s, err task_not_found)
  | some slot ↦ elim slot [
    | none ↦ (s, err task_not_found)
    | some t ↦
        let (t', valid) = transition t exited in
        if valid
        then (let (s', queued) = pop_ready (clear s current) in
            if is_task queued successor
            then start_successor s' successor
            else (s', err successor_not_ready))
        else (s, err task_not_found)
  ]
]

abbrev pub terminate : Scheduler → Option TaskId → TaskId → Scheduler × Result SchedulerError TaskId
terminate s none successor = (s, err task_not_found)
terminate s (some current) successor =
    if current == successor
    then (s, err current_task_mismatch)
    else if not (is_task (RunQueue.peek s.ready) successor)
        || not (is_state (state s successor) ready)
    then (s, err successor_not_ready)
    else if not (holds (get_elem? s.tasks current.index) current running)
    then (s, err task_not_found)
    else if not (holds (get_elem? s.tasks successor.index) successor ready)
    then (s, err successor_not_ready)
    else retire_current s current successor

unfoldable pub terminate_current_to : Scheduler → TaskId → Scheduler × Result SchedulerError TaskId
unfolding retire_current
terminate_current_to s successor = terminate s s.current successor

-- The two opening steps of `schedule_next`: the running task goes back to the ready queue.
unfoldable pub requeue : Scheduler → Option TaskId → Scheduler
unfolding change push_ready
requeue s none = s
requeue s (some id) =
    if is_state (state s id) running then (push_ready (change s id ready).0 id).0 else s

-- Only the previous task is ready.
unfoldable pub alone : Scheduler → Option TaskId → Bool
unfolding RunQueue.len RunQueue.peek
alone s none = false
alone s (some id) = nat_eq (RunQueue.len s.ready) 1 && is_task (RunQueue.peek s.ready) id

unfoldable pub keep_running : Scheduler → TaskId → Scheduler
unfolding change pop_ready
keep_running s id = record ((change (pop_ready s).0 id running).0) { current = some id }

-- The task at the front starts to run, if it can.
abbrev run_next : Scheduler → Option TaskId → Scheduler
run_next s none = record s { current = none }
run_next s (some id) =
    let (s', started) = change s id running in
    record s' {
      current = elim started [ none ↦ none | some valid ↦ if valid then some id else none ];
    }

unfoldable pub switch_next : Scheduler → Scheduler
unfolding pop_ready change
switch_next s = let (s', next) = pop_ready s in run_next s' next

abbrev pub dispatch_from : Scheduler → Option TaskId → Scheduler × DispatchDecision
dispatch_from s none = let s' = switch_next s in (s', record { previous = none; next = s'.current })
dispatch_from s (some id) =
    if alone s (some id)
    then (keep_running s id, record { previous = some id; next = none })
    else let s' = switch_next s in (s', record { previous = some id; next = s'.current })

unfoldable pub schedule_next : Scheduler → Scheduler × DispatchDecision
unfolding requeue alone keep_running switch_next
schedule_next s = dispatch_from (requeue s s.current) s.current
