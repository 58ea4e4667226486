-- ===== src/Examples/SchedulerRuns.antt =====
-- A scheduler with two tasks, from its creation to the exit of the first task.
use x.Base.{suc, ◌⊎◌, ok, err, ◌≡◌, refl, none, some, [], ◌∷◌, ◌++◌, map, arith, length, contains}
use x.Scheduler.Task.{
  TaskId, Priority, kernel, userspace, new_kernel, new_userspace, attach, detach, transition,
  task_id_eq,
}
use x.Scheduler.RunQueue
use x.Scheduler.SleepQueue
use x.Scheduler.SleepQueue.{SleepQueue}
use x.Scheduler.SleepQueue.Order
use x.Scheduler.SleepQueue.Insertion.{Inserted}
use x.Scheduler.WaitQueue
use x.Scheduler.State.{
  Scheduler, SchedulerError, new, find, put, change, create_task_with_kind, free_slot, new_task,
}
use x.Scheduler.Ops.{
  attach_execution, destroy_created, make_ready, push_ready, terminate_current_to, schedule_next,
}
use x.Scheduler.Waiting.{block_current_on, wake_one, sleep_current_until, expire_sleepers}
use x.Scheduler.Invariant.{Inv, CurrentRuns}
use x.Scheduler.Reach.{
  Reach, here, next, creates, attaches, destroys, readies, schedules, blocks_on, sleeps, Reach-Inv,
}
use x.Scheduler.Reach.Stale.{Stale, Reach-Stale}
use x.Scheduler.Reach.RoundRobin.{rounds, turns, rounds_turn}
use x.Scheduler.Preservation.Dispatch.{requeued_list}
use x.Scheduler.Preservation.Dispatch.Outcome.{Dispatched, schedule_next-Dispatched}
use x.Scheduler.Preservation.Exit.Terminate.{AllOrNothing, terminate_current_to-AllOrNothing}
use x.Scheduler.Preservation.Wait.{
  WakesAll, WakesFirst, expire_sleepers-WakesAll, wake_one-WakesFirst,
}
use x.Scheduler.Preservation.Block.{
  Blocks, BlocksOrNot, behind, block_current_on-BlocksOrNot, sleep_current_until-Sleeps,
}
use x.Scheduler.Creation.Spec.{Creates, create_task_with_kind-Creates}

abbrev priority : Priority
priority = record { value = 16 }

abbrev first : TaskId
first = record { index = 0; generation = 1 }

abbrev second : TaskId
second = record { index = 1; generation = 1 }

abbrev one : Scheduler
one = record {
  tasks = some (new_kernel first priority) ∷ [];
  generations = 1 ∷ [];
  ready = RunQueue.new;
  current = none;
}

abbrev two : Scheduler
two = record {
  tasks = some (new_kernel first priority) ∷ some (new_userspace second priority) ∷ [];
  generations = 1 ∷ 1 ∷ [];
  ready = RunQueue.new;
  current = none;
}

create_first : create_task_with_kind new priority kernel ≡ some (one, first)
unfolding create_task_with_kind new free_slot new_task
create_first = refl

create_second : create_task_with_kind one priority userspace ≡ some (two, second)
unfolding create_task_with_kind free_slot new_task
create_second = refl

abbrev queued : Scheduler
queued = (make_ready (make_ready two first).0 second).0

abbrev dispatched : Scheduler
dispatched = (schedule_next queued).0

two-Reach : Reach new two
unfolding new
two-Reach =
    next (next here (creates new priority kernel one first (omega arith) create_first))
      (creates one priority userspace two second (omega arith) create_second)

queued-Reach : Reach new queued
queued-Reach = next (next two-Reach (readies two first)) (readies (make_ready two first).0 second)

dispatched-Reach : Reach new dispatched
dispatched-Reach = next queued-Reach (schedules queued)

Reach-Inv_example : Inv dispatched
Reach-Inv_example = Reach-Inv dispatched-Reach

two-Inv : Inv two
two-Inv = Reach-Inv two-Reach

queued-Inv : Inv queued
queued-Inv = Reach-Inv queued-Reach

dispatched-Inv : Inv dispatched
dispatched-Inv = Reach-Inv dispatched-Reach

create_task_with_kind-Creates_example :
    Creates two priority kernel (create_task_with_kind two priority kernel)
create_task_with_kind-Creates_example =
    create_task_with_kind-Creates two priority kernel two-Inv (omega arith)

-- The second task, with its execution, is destroyed before it was ready.
abbrev attached : Scheduler
attached = (attach_execution two second).0

abbrev destroyed : Scheduler
destroyed = (destroy_created attached second).0

destroyed-Stale : Stale destroyed second
unfolding destroy_created attach_execution find put attach detach new_kernel new_userspace
    task_id_eq
destroyed-Stale = (refl, (1, refl, omega arith))

destroyed-Inv : Inv destroyed
destroyed-Inv = Reach-Inv (next (next two-Reach (attaches two second)) (destroys attached second))

abbrev after_destroyed : Scheduler
after_destroyed = (schedule_next (make_ready destroyed first).0).0

Reach-Stale_example : Stale after_destroyed second
Reach-Stale_example =
    Reach-Stale second destroyed-Inv
      (next (next here (readies destroyed first)) (schedules (make_ready destroyed first).0))
      destroyed-Stale

queued_current : queued.current ≡ none
unfolding make_ready change push_ready find put transition new_kernel new_userspace task_id_eq
    contains RunQueue.has RunQueue.push RunQueue.new
queued_current = refl

queued-CurrentRuns : CurrentRuns queued
queued-CurrentRuns id e = absurd (ground (arith, queued_current))

schedule_next-Dispatched_example :
    Dispatched queued (requeued_list queued queued.current) (schedule_next queued)
schedule_next-Dispatched_example = schedule_next-Dispatched queued queued-Inv queued-CurrentRuns

queued_turns : turns queued ≡ (first ∷ []) ++ second ∷ []
unfolding make_ready change push_ready find put transition new_kernel new_userspace task_id_eq
    contains RunQueue.has RunQueue.push RunQueue.new
queued_turns = refl

rounds_turn_example :
    ((rounds (suc (length (first ∷ []))) queued).current ≡ some second)
    × (turns (rounds (suc (length (first ∷ []))) queued) ≡ [] ++ (first ∷ []) ++ second ∷ [])
rounds_turn_example =
    rounds_turn (first ∷ []) queued second [] queued-Inv queued-CurrentRuns queued_turns

terminate_current_to-AllOrNothing_example :
    AllOrNothing dispatched second (terminate_current_to dispatched second)
terminate_current_to-AllOrNothing_example =
    terminate_current_to-AllOrNothing dispatched second dispatched-Inv

block_current_on-BlocksOrNot_example :
    BlocksOrNot dispatched WaitQueue.new
      (behind WaitQueue.new)
      (block_current_on dispatched WaitQueue.new)
block_current_on-BlocksOrNot_example = block_current_on-BlocksOrNot dispatched WaitQueue.new

sleep_current_until-Sleeps_example :
    ((e : SchedulerError) × (sleep_current_until dispatched 100 SleepQueue.new
        ≡ (dispatched, SleepQueue.new, err e)))
    ⊎ ((id : TaskId) × (s' : Scheduler) × (q' : SleepQueue) × Blocks dispatched id s'
        × Inserted SleepQueue.new.entries (record { deadline = 100; task = id }) q'.entries
        × (sleep_current_until dispatched 100 SleepQueue.new ≡ (s', q', ok id)))
sleep_current_until-Sleeps_example = sleep_current_until-Sleeps dispatched 100 SleepQueue.new

abbrev slept : Scheduler
slept = (sleep_current_until dispatched 100 SleepQueue.new).0

abbrev sleepers : SleepQueue
sleepers = (SleepQueue.insert SleepQueue.new (record { deadline = 100; task = first })).0

sleepers-IsValid : Order.IsValid sleepers
sleepers-IsValid =
    Order.insert-IsValid SleepQueue.new (record { deadline = 100; task = first })
      (unfold SleepQueue.new in record { sorted = tt; one_per_task = tt })

expire_sleepers-WakesAll_example :
    let (s', sleepers', woken) = expire_sleepers slept 250 sleepers in
    let due = map (λ e. e.task) (Order.keep (Order.due 250) sleepers.entries) in
    WakesAll slept due (s', woken)
    × (sleepers'.entries ≡ Order.keep (Order.later 250) sleepers.entries)
expire_sleepers-WakesAll_example =
    expire_sleepers-WakesAll slept 250 sleepers
      (Reach-Inv (next dispatched-Reach (sleeps dispatched 100 SleepQueue.new))) sleepers-IsValid

abbrev waiting : Scheduler
waiting = (block_current_on dispatched WaitQueue.new).0

wake_one-WakesFirst_example :
    let (s', waiters', woken) = wake_one waiting (behind WaitQueue.new first) in
    WakesFirst waiting (behind WaitQueue.new first).queue (s', waiters'.queue, woken)
wake_one-WakesFirst_example =
    wake_one-WakesFirst waiting (behind WaitQueue.new first)
      (Reach-Inv (next dispatched-Reach (blocks_on dispatched WaitQueue.new)))
