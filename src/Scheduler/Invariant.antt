-- ===== src/Scheduler/Invariant.antt =====
-- What holds of a scheduler between two operations.
use x.Base.{
  ◌≡◌, Bool, true, false, ◌||◌, Option, none, some, List, [], ◌∷◌, ◌++◌, ◌==◌, arith, contains,
  Distinct, Distinct-push, contains-push, contains-pop,
}
use x.Scheduler.Task.{
  TaskId, TaskId_Eq, TaskState, TaskState_Eq, created, ready, running, blocked, TaskControlBlock,
  task_id_eq_iff,
}
use x.Scheduler.RunQueue.{RunQueue}
use x.Scheduler.State.{Scheduler, put, task}
use x.Scheduler.Slots.{Slots, task-write, task-clear, write-Slots, clear-Slots, task-eq_some}

abbrev pub in_state : TaskState → Option TaskControlBlock → Bool
in_state st none = false
in_state st (some t) = t.state == st

-- The ready queue holds exactly the ready tasks, each once; a running task is the current one; the
-- current task is running, or was made ready by a call of `make_ready` on it.
pub record Inv (s : Scheduler) : Type 0 where
  pub slots : Slots s
  pub distinct : Distinct s.ready.queue
  pub queued : (id : TaskId) → contains s.ready.queue id ≡ in_state ready (task s id)
  pub only_current : (id : TaskId) → in_state running (task s id) ≡ true → s.current ≡ some id
  pub current_live :
      (id : TaskId)
      → s.current ≡ some id
      → (in_state running (task s id) || in_state ready (task s id)) ≡ true

-- The current task runs: so it is unless `make_ready` was called on the current task.
abbrev pub CurrentRuns : Scheduler → Type 0
CurrentRuns s = (id : TaskId) → s.current ≡ some id → in_state running (task s id) ≡ true

-- The other fields of the scheduler play no part in where its tasks are.
pub re-Slots :
    (s : Scheduler) (q : RunQueue) (c : Option TaskId)
    → Slots s
    → Slots (record s { ready = q; current = c })
re-Slots s q c v = record { aligned = v.aligned; bounded = v.bounded; owner = v.owner }

abbrev pub to_state : TaskState → TaskControlBlock → TaskControlBlock
to_state st t = record t { state = st }

module _ (s : Scheduler) (id : TaskId) (t : TaskControlBlock) (v : Inv s)
    (there : task s id ≡ some t) where
  own : t.id ≡ id
  own = (task-eq_some s id there).1

  -- A task that is not ready becomes ready, at the end of the queue.
  pub enqueue-Inv :
      (t.state == ready) ≡ false
      → Inv (record s {
        tasks = put s.tasks id (some (to_state ready t));
        ready = record { queue = s.ready.queue ++ id ∷ [] };
      })
  enqueue-Inv idle = record {
    slots = re-Slots _ _ _ (write-Slots s id (to_state ready t) there own v.slots);
    distinct = Distinct-push s.ready.queue id (ground (arith, v.queued id)) v.distinct;
    queued = λ j. ground (
      arith,
      v.queued j,
      v.queued id,
      contains-push s.ready.queue id j,
      task-write s id (to_state ready t) j there own,
    );
    only_current =
        λ j r. ground (arith, v.only_current j, task-write s id (to_state ready t) j there own);
    current_live =
        λ j c. ground (arith, v.current_live j, task-write s id (to_state ready t) j there own);
  }

  -- The running task leaves the table of runnable tasks: it blocks.
  pub block-Inv :
      (t.state == running) ≡ true
      → Inv (record s { tasks = put s.tasks id (some (to_state blocked t)); current = none })
  block-Inv runs = record {
    slots = re-Slots _ _ _ (write-Slots s id (to_state blocked t) there own v.slots);
    distinct = v.distinct;
    queued = λ j.
        ground (
          arith,
          v.queued j,
          task_id_eq_iff id j,
          task-write s id (to_state blocked t) j there own,
        );
    only_current = λ j r. ground (
      arith,
      v.only_current j,
      v.only_current id,
      task_id_eq_iff id j,
      task-write s id (to_state blocked t) j there own,
    );
    current_live = λ j c. ground arith;
  }

  -- The running task leaves the table: it exits.
  pub exit-Inv :
      (t.state == running) ≡ true → Inv (record s { tasks = put s.tasks id none; current = none })
  exit-Inv runs = record {
    slots = re-Slots _ _ _ (clear-Slots s id v.slots);
    distinct = v.distinct;
    queued = λ j. ground (arith, v.queued j, task_id_eq_iff id j, task-clear s id j there);
    only_current = λ j r.
        ground (
          arith,
          v.only_current j,
          v.only_current id,
          task_id_eq_iff id j,
          task-clear s id j there,
        );
    current_live = λ j c. ground arith;
  }

  -- A task that is neither ready nor running leaves the table.
  pub remove-Inv : (t.state == created) ≡ true → Inv (record s { tasks = put s.tasks id none })
  remove-Inv fresh = record {
    slots = re-Slots _ _ _ (clear-Slots s id v.slots);
    distinct = v.distinct;
    queued = λ j. ground (arith, v.queued j, task_id_eq_iff id j, task-clear s id j there);
    only_current = λ j r. ground (arith, v.only_current j, task-clear s id j there);
    current_live =
        λ j c. ground (arith, v.current_live j, task_id_eq_iff id j, task-clear s id j there);
  }

  -- A change of a task that keeps its identity and its state.
  pub update-Inv :
      (t' : TaskControlBlock)
      → t'.id ≡ id
      → t'.state ≡ t.state
      → Inv (record s { tasks = put s.tasks id (some t') })
  update-Inv t' e same = record {
    slots = re-Slots _ _ _ (write-Slots s id t' there e v.slots);
    distinct = v.distinct;
    queued = λ j. ground (arith, v.queued j, task_id_eq_iff id j, task-write s id t' j there e);
    only_current =
        λ j r. ground (arith, v.only_current j, task_id_eq_iff id j, task-write s id t' j there e);
    current_live =
        λ j c. ground (arith, v.current_live j, task_id_eq_iff id j, task-write s id t' j there e);
  }

  -- The task at the front of the queue starts to run, where no other runs.
  pub run-Inv :
      (rest : List TaskId)
      → s.ready.queue ≡ id ∷ rest
      → ((j : TaskId) → in_state running (task s j) ≡ false)
      → Inv (record s {
        tasks = put s.tasks id (some (to_state running t));
        ready = record { queue = rest };
        current = some id;
      })
  run-Inv rest e idle =
      let d : Distinct (id ∷ rest) = rw e at v.distinct in
      record {
        slots = re-Slots _ _ _ (write-Slots s id (to_state running t) there own v.slots);
        distinct = d.1;
        queued = λ j. ground (
          arith,
          v.queued j,
          task_id_eq_iff id j,
          contains-pop id rest j d,
          task-write s id (to_state running t) j there own,
        );
        only_current = λ j r.
            ground (
              arith,
              idle j,
              task_id_eq_iff id j,
              task-write s id (to_state running t) j there own,
            );
        current_live = λ j c.
            ground (arith, task_id_eq_iff id j, task-write s id (to_state running t) j there own);
      }
