-- ===== src/Scheduler/Reach/RoundRobin.antt =====
-- Round robin: every ready task gets its turn.
use x.Base.{ℕ, zero, suc, ◌≡◌, ◌∙◌, ap, some, List, [], ◌∷◌, ◌++◌, length}
use mathlib.Core.List.{append_assoc, append-nil}
use x.Scheduler.Task.{TaskId, TaskState_Eq}
use x.Scheduler.State.{Scheduler, DispatchDecision}
use x.Scheduler.Ops.{schedule_next}
use x.Scheduler.Invariant.{Inv, CurrentRuns}
use x.Scheduler.Preservation.Dispatch.{schedule_next-Inv, requeued_list}
use x.Scheduler.Preservation.Dispatch.Outcome.{schedule_next-Dispatched, Dispatched}

-- `n` calls of `schedule_next`, with nothing between them.
unfoldable pub rounds : ℕ → Scheduler → Scheduler
rounds zero s = s
rounds (suc n) s = rounds n (schedule_next s).0

-- The tasks that take turns: the queue, and behind it the current task.
abbrev pub turns : Scheduler → List TaskId
turns s = requeued_list s s.current

Dispatched-front :
    (s : Scheduler) (x : TaskId) (rest : List TaskId) (r : Scheduler × DispatchDecision)
    → Dispatched s (x ∷ rest) r
    → (r.0.current ≡ some x) × (r.0.ready.queue ≡ rest)
Dispatched-front s x rest r h = (h.0, h.1)

step_front :
    (s : Scheduler) (x : TaskId) (rest : List TaskId)
    → Inv s
    → CurrentRuns s
    → turns s ≡ x ∷ rest
    → ((schedule_next s).0.current ≡ some x) × (turns (schedule_next s).0 ≡ rest ++ x ∷ [])
step_front s x rest v r e =
    let (c, q) =
      Dispatched-front s x rest (schedule_next s) (rw e at (schedule_next-Dispatched s v r)) in
    (c, rw c (ap (λ l. l ++ x ∷ []) q))

-- The tasks take turns in the order of the queue: the one that has `n` tasks ahead of it runs after
-- `n + 1` dispatches, and by then those tasks, and it, stand behind the others in the same order.
pub rounds_turn :
    (ahead : List TaskId) (s : Scheduler) (x : TaskId) (behind : List TaskId)
    → Inv s
    → CurrentRuns s
    → turns s ≡ ahead ++ x ∷ behind
    → ((rounds (suc (length ahead)) s).current ≡ some x)
      × (turns (rounds (suc (length ahead)) s) ≡ behind ++ ahead ++ x ∷ [])
unfolding rounds
rounds_turn [] s x behind v r e = rw append-nil (step_front s x behind v r e)
rounds_turn (y ∷ ahead) s x behind v r e =
    let (v', r') = schedule_next-Inv s v in
    let (_, q) = step_front s y (ahead ++ x ∷ behind) v r e in
    let (c, t) =
      rounds_turn ahead (schedule_next s).0 x (behind ++ y ∷ []) v' r'
        (q ∙ append_assoc ahead (x ∷ behind) (y ∷ [])) in
    (c, t ∙ ap (λ l. l ++ x ∷ []) (append_assoc behind (y ∷ []) ahead))
