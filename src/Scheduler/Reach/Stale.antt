-- ===== src/Scheduler/Reach/Stale.antt =====
-- A stale task identity never comes back to life.
use x.Base.{ℕ, ◌≤◌, ◌≡◌, false, Option, none, some, ◌==◌, arith, get_elem?, inl, inr, Bool-cases}
use x.Scheduler.Task.{TaskId, TaskId_Eq, task_id_eq_iff}
use x.Scheduler.State.{Scheduler, task, create_task_with_kind}
use x.Scheduler.Invariant.{Inv}
use x.Scheduler.Kept
use x.Scheduler.Kept.{Kept}
use x.Scheduler.Creation.Spec.{Newer, Creates, create_task_with_kind-Creates}
use x.Scheduler.Reach.{
  Step, Reach, here, next, creates, attaches, destroys, readies, terminates, schedules, blocks_on,
  blocks, wakes, sleeps, expires, exits, run-Inv,
}

-- An identity of no task, whose generation its slot has reached: its task was destroyed.
abbrev pub Stale : Scheduler → TaskId → Type 0
Stale s id =
    (task s id ≡ none)
    × ((g : ℕ) × (get_elem? s.generations id.index ≡ some g) × (id.generation ≤ g))

Kept-Stale : {s t : Scheduler} (id : TaskId) → Kept s t → Stale s id → Stale t id
Kept-Stale id k (gone, (g, e, b)) = (k.absent id gone, (g, rw k.generations e, b))

-- A new identity is not stale.
new_ne-Stale :
    (s : Scheduler) (id i : TaskId)
    → Stale s id
    → Newer i (get_elem? s.generations i.index)
    → (i == id) ≡ false
new_ne-Stale s id i (gone, (g, e, b)) n = elim (Bool-cases (i == id)) [
  | inl same ↦
      let k : i ≡ id = (task_id_eq_iff i id).0 same in
      let m = rw (k, e) at n in absurd (omega arith)
  | inr other ↦ other
]

created-Stale :
    (s s' : Scheduler) (id : TaskId) (r : Option (Scheduler × TaskId)) (p : _) (kind : _)
    (i : TaskId)
    → Creates s p kind r
    → r ≡ some (s', i)
    → Stale s id
    → Stale s' id
created-Stale s s' id r p kind i (u, new, out, _, newer, _, at, _, _, grows, _) e
      (gone, (g, f, b)) =
    let same : s' ≡ u = cc (e, out) in
    let (h, k, l) = grows id.index g f in
    rw same (rw (at id, new_ne-Stale s id new (gone, (g, f, b)) newer) gone, (h, k, omega arith))

Step-Stale : {s t : Scheduler} (id : TaskId) → Inv s → Step s t → Stale s id → Stale t id
Step-Stale j v (creates s p kind s' id b e) h =
    created-Stale s s' j (create_task_with_kind s p kind) p kind id
      (create_task_with_kind-Creates s p kind v b) e h
Step-Stale j v (attaches s id) h = Kept-Stale j (Kept.attach_execution-Kept s id) h
Step-Stale j v (destroys s id) h = Kept-Stale j (Kept.destroy_created-Kept s id) h
Step-Stale j v (readies s id) h = Kept-Stale j (Kept.make_ready-Kept s id) h
Step-Stale j v (terminates s id) h = Kept-Stale j (Kept.terminate_current_to-Kept s id v) h
Step-Stale j v (schedules s) h = Kept-Stale j (Kept.schedule_next-Kept s v) h
Step-Stale j v (blocks_on s w) h = Kept-Stale j (Kept.block_current_on-Kept s w) h
Step-Stale j v (blocks s) h = Kept-Stale j (Kept.block_current-Kept s v) h
Step-Stale j v (wakes s w) h = Kept-Stale j (Kept.wake_one-Kept s w v) h
Step-Stale j v (sleeps s d q) h = Kept-Stale j (Kept.sleep_current_until-Kept s d q) h
Step-Stale j v (expires s now q) h = Kept-Stale j (Kept.expire_sleepers-Kept s now q v) h
Step-Stale j v (exits s) h = Kept-Stale j (Kept.exit_current-Kept s v) h

-- Once a task is gone from a scheduler that satisfies the invariant and its slot has reached its
-- generation, no sequence of calls, with tasks created only while the table has at most `u32::MAX` slots,
-- makes its identity name a task again: a stale handle reaches no later occupant of the slot.
pub Reach-Stale : {s t : Scheduler} (id : TaskId) → Inv s → Reach s t → Stale s id → Stale t id
Reach-Stale id v here h = h
Reach-Stale id v (next r step) h = Step-Stale id (run-Inv v r) step (Reach-Stale id v r h)
