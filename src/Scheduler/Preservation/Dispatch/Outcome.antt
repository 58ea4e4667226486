-- ===== src/Scheduler/Preservation/Dispatch/Outcome.antt =====
-- What `schedule_next` decides: round robin.
use x.Base.{◌≡◌, refl, none, some, List, [], ◌∷◌, if◌then◌else◌}
use x.Scheduler.Task.{TaskId, TaskId_Eq, TaskState_Eq}
use x.Scheduler.State.{Scheduler, DispatchDecision}
use x.Scheduler.Ops.{requeue, schedule_next, dispatch_from}
use x.Scheduler.Invariant.{Inv, CurrentRuns}
use x.Scheduler.Preservation.Dispatch.{
  front_ready, dispatch_from-nil, only_one, dispatch_from-cons, requeue-Requeued, requeued_list,
  requeue_list,
}

-- What a dispatch does, where the tasks to run next are those of the list.
abbrev pub Dispatched : Scheduler → List TaskId → Scheduler × DispatchDecision → Type 0
Dispatched s [] (s', d) =
    (s'.current ≡ none) × (s'.ready.queue ≡ []) × (d ≡ record { previous = s.current; next = none })
Dispatched s (x ∷ rest) (s', d) =
    (s'.current ≡ some x)
    × (s'.ready.queue ≡ rest)
    × (d ≡ record {
      previous = s.current;
      next = if only_one s.current x rest then none else some x;
    })

dispatch_from-Dispatched :
    (s r : Scheduler) (q : List TaskId)
    → r.ready.queue ≡ q
    → Inv r
    → Dispatched s q (dispatch_from r s.current)
dispatch_from-Dispatched s r [] e v = rw (dispatch_from-nil r s.current e) (refl, e, refl)
dispatch_from-Dispatched s r (x ∷ rest) e v =
    let (t, there, ok) = front_ready r x rest v e in
    rw (dispatch_from-cons r s.current x rest t e there ok) (refl, refl, refl)

-- Round robin, for a scheduler that satisfies the invariant and whose current task runs: the running
-- task, if any, joins the end of the ready queue; then the front of the queue leaves it and becomes
-- current. With nothing to run there is no current task. The decision names the old current task
-- and the new one, or no successor where the running task is alone.
pub schedule_next-Dispatched :
    (s : Scheduler)
    → Inv s
    → CurrentRuns s
    → Dispatched s (requeued_list s s.current) (schedule_next s)
unfolding schedule_next
schedule_next-Dispatched s v r =
    let (v', _, _) = requeue-Requeued s s.current refl v in
    dispatch_from-Dispatched s (requeue s s.current) (requeued_list s s.current)
      (requeue_list s s.current refl v r) v'
