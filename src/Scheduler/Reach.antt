-- ===== src/Scheduler/Reach.antt =====
-- The schedulers that can be reached from a new one, by any operations in any order.
pub mod Stale
pub mod RoundRobin
use x.Base.{
  ℕ, ◌≤◌, ◌≡◌, ◌≢◌, ◌∙◌, refl, sym, Bool, true, false, Option, none, some, List, [], ◌∷◌, ◌==◌,
  arith, length, contains, get_elem?, inl, inr, Bool-cases, Option-cases, some, u32_max, is_some,
}
use x.Scheduler.Task.{TaskId, TaskId_Eq, TaskKind, TaskState_Eq, Priority, ready, running}
use x.Scheduler.RunQueue
use x.Scheduler.WaitQueue.{WaitQueue}
use x.Scheduler.SleepQueue.{SleepQueue}
use x.Scheduler.State.{Scheduler, new, task, find, create_task_with_kind}
use x.Scheduler.Ops.{
  attach_execution, destroy_created, make_ready, terminate_current_to, schedule_next,
}
use x.Scheduler.Waiting.{
  block_current_on, block_current, wake_one, sleep_current_until, expire_sleepers, exit_current,
}
use x.Scheduler.Slots.{Slots}
use x.Scheduler.Invariant.{Inv, in_state, CurrentRuns}
use x.Scheduler.Preservation.Ready.{make_ready-Inv, attach_execution-Inv, destroy_created-Inv}
use x.Scheduler.Preservation.Dispatch.{schedule_next-Inv}
use x.Scheduler.Preservation.Exit.{exit_current-Inv, block_current-Inv}
use x.Scheduler.Preservation.Exit.Terminate.{terminate_current_to-Inv}
use x.Scheduler.Preservation.Wait.{wake_one-Inv, expire_sleepers-Inv}
use x.Scheduler.Preservation.Block.{block_current_on-Inv, sleep_current_until-Inv}
use x.Scheduler.Creation.Spec.{create_task_with_kind-Creates}

-- One call of a method of the scheduler, on any arguments and with any queue lent to it.
pub data Step : Scheduler → Scheduler → Type 0 where
  creates :
      (s : Scheduler) (p : Priority) (kind : TaskKind) (s' : Scheduler) (id : TaskId)
      → length s.tasks ≤ u32_max
      → create_task_with_kind s p kind ≡ some (s', id)
      → Step s s'
  attaches : (s : Scheduler) (id : TaskId) → Step s (attach_execution s id).0
  destroys : (s : Scheduler) (id : TaskId) → Step s (destroy_created s id).0
  readies : (s : Scheduler) (id : TaskId) → Step s (make_ready s id).0
  terminates : (s : Scheduler) (id : TaskId) → Step s (terminate_current_to s id).0
  schedules : (s : Scheduler) → Step s (schedule_next s).0
  blocks_on : (s : Scheduler) (w : WaitQueue) → Step s (block_current_on s w).0
  blocks : (s : Scheduler) → Step s (block_current s).0
  wakes : (s : Scheduler) (w : WaitQueue) → Step s (wake_one s w).0
  sleeps :
      (s : Scheduler) (deadline : ℕ) (q : SleepQueue) → Step s (sleep_current_until s deadline q).0
  expires : (s : Scheduler) (now : ℕ) (q : SleepQueue) → Step s (expire_sleepers s now q).0
  exits : (s : Scheduler) → Step s (exit_current s).0

pub data Reach (s : Scheduler) : Scheduler → Type 0 where
  here : Reach s s
  next : {t u : Scheduler} → Reach s t → Step t u → Reach s u

pub new-Inv : Inv new
unfolding new contains find RunQueue.new
new-Inv = record {
  slots = record { aligned = refl; bounded = λ i g e. ground arith; owner = λ i t e. ground arith };
  distinct = tt;
  queued = λ id. refl;
  only_current = λ id r. ground arith;
  current_live = λ id c. ground arith;
}

pub Step-Inv : {s t : Scheduler} → Step s t → Inv s → Inv t
Step-Inv (creates s p kind s' id b e) v =
    let (u, i, f, _, _, _, _, _, _, _, inv) = create_task_with_kind-Creates s p kind v b in
    let same : s' ≡ u = cc (e, f) in rw same inv
Step-Inv (attaches s id) v = attach_execution-Inv s id v
Step-Inv (destroys s id) v = destroy_created-Inv s id v
Step-Inv (readies s id) v = make_ready-Inv s id v
Step-Inv (terminates s id) v = terminate_current_to-Inv s id v
Step-Inv (schedules s) v = (schedule_next-Inv s v).0
Step-Inv (blocks_on s w) v = block_current_on-Inv s w v
Step-Inv (blocks s) v = block_current-Inv s v
Step-Inv (wakes s w) v = wake_one-Inv s w v
Step-Inv (sleeps s deadline q) v = sleep_current_until-Inv s deadline q v
Step-Inv (expires s now q) v = expire_sleepers-Inv s now q v
Step-Inv (exits s) v = exit_current-Inv s v

pub run-Inv : {s t : Scheduler} → Inv s → Reach s t → Inv t
run-Inv v here = v
run-Inv v (next r step) = Step-Inv step (run-Inv v r)

-- Every scheduler reached from a new one, by any sequence of calls with any arguments in which tasks are
-- created only while the table has at most `u32::MAX` slots, satisfies the invariant: its slots hold the tasks of their own index and generation, the ready queue holds
-- exactly the ready tasks, each once, and a running task is the current one.
pub Reach-Inv : {s : Scheduler} → Reach new s → Inv s
Reach-Inv r = run-Inv new-Inv r

-- In a reachable scheduler at most one task runs.
pub one_runs :
    (s : Scheduler) (a b : TaskId)
    → Reach new s
    → in_state running (task s a) ≡ true
    → in_state running (task s b) ≡ true
    → a ≡ b
one_runs s a b r p q = cc ((Reach-Inv r).only_current a p, (Reach-Inv r).only_current b q)
