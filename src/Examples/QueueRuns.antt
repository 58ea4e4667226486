-- ===== src/Examples/QueueRuns.antt =====
-- The run queue and the deadline queue on two tasks.
use x.Base.{◌≡◌, refl, false, [], ◌∷◌, map, ◌==◌, if◌then◌else◌}
use x.Scheduler.Task.{TaskId, TaskId_Eq, task_id_le, task_id_eq}
use x.Scheduler.RunQueue.{RunQueue}
use x.Scheduler.SleepQueue.{
  SleepQueue, SleepEntry, insert, expire_until, remove, any_task, entry_le,
}
use x.Scheduler.SleepQueue.Order.{IsValid, keep, due, later, insert-IsValid, expire_until-keep}
use x.Scheduler.SleepQueue.Removal.{remove-IsValid}

abbrev first : TaskId
first = record { index = 0; generation = 1 }

abbrev second : TaskId
second = record { index = 1; generation = 1 }

abbrev third : TaskId
third = record { index = 2; generation = 5 }

abbrev queue : RunQueue
queue = record { queue = first ∷ second ∷ [] }

abbrev early : SleepEntry
early = record { deadline = 50; task = second }

abbrev late : SleepEntry
late = record { deadline = 100; task = first }

abbrev sleepers : SleepQueue
sleepers = record { entries = early ∷ late ∷ [] }

sleepers-IsValid : IsValid sleepers
unfolding any_task entry_le task_id_le task_id_eq
sleepers-IsValid = record { sorted = ((refl, tt), (tt, tt)); one_per_task = (refl, (refl, tt)) }

insert-IsValid_example : IsValid (insert sleepers (record { deadline = 70; task = third })).0
insert-IsValid_example =
    insert-IsValid sleepers (record { deadline = 70; task = third }) sleepers-IsValid

expire_until-keep_example :
    ((expire_until sleepers 60).1 ≡ map (λ e. e.task) (keep (due 60) sleepers.entries))
    × ((expire_until sleepers 60).0.entries ≡ keep (later 60) sleepers.entries)
expire_until-keep_example = expire_until-keep sleepers 60 sleepers-IsValid

remove-IsValid_example :
    IsValid (remove sleepers second).0
    × (any_task (remove sleepers second).0.entries first
        ≡ (if second == first then false else any_task sleepers.entries first))
remove-IsValid_example = remove-IsValid sleepers second first sleepers-IsValid
