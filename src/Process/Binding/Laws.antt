-- ===== src/Process/Binding/Laws.antt =====
-- What `bind_and_ready` promises for a process that is registered and not bound.
use x.Base.{
  ◌≤◌, ◌≡◌, refl, ◌∙◌, true, false, Option, none, some, length, u32_max, is_some, arith, ok,
  contains, get_elem?-lt,
}
use x.Scheduler.Task.{
  TaskId, TaskId_Eq, task_id_eq_iff, TaskControlBlock, Priority, kernel, created, ready, for_task,
  TaskState_Eq, new_kernel,
}
use x.Scheduler.State.{Scheduler, task, create_task, create_task_with_kind, new_task}
use x.Scheduler.Ops.{attach_execution, make_ready}
use x.Scheduler.Slots.{task-write, task-eq_some}
use x.Scheduler.Invariant.{Inv, in_state, to_state}
use x.Scheduler.Creation.Spec.{create_task_with_kind-Creates}
use x.Scheduler.Preservation.Ready.{
  make_ready-some, make_ready-Inv, attach_execution-some, attach_execution-Inv, attached, enqueued,
}
use x.Process.AddressSpace.{id_eq}
use x.Process.Identity.{ProcessId, ProcessExecutionBinding, new_binding}
use x.Process.Image.{ProcessImage}
use x.Process.Manager.{ProcessManager, Slot, slot, put as put_slot}
use x.Process.Manager.Ops
use x.Process.Manager.Slots.{slot-ok, get_elem?-put}
use x.Process.Binding.{Outcome, bind_and_ready, bind_task, ready_task}

-- A task that was just created gets its execution, and then joins the ready queue.
pub attached_lem :
    (s : Scheduler) (id : TaskId) (priority : Priority)
    → Inv s
    → task s id ≡ some (new_task kernel id priority)
    → (s2 : Scheduler) × (attach_execution s id ≡ (s2, ok (for_task id)))
      × Inv s2
      × (task s2 id ≡ some (attached (new_task kernel id priority)))
unfolding new_task new_kernel is_some
attached_lem s id priority v h =
    let t = new_task kernel id priority in
    let e = attach_execution-some s id t h in
    let s2 = (attach_execution s id).0 in
    (
      s2,
      ground arith,
      attach_execution-Inv s id v,
      rw e (ground (arith, task-write s id (attached t) id h refl, task_id_eq_iff id id)),
    )

pub readied_lem :
    (s : Scheduler) (id : TaskId) (t : TaskControlBlock)
    → Inv s
    → task s id ≡ some t
    → t.state ≡ created
    → (s3 : Scheduler) × (make_ready s id ≡ (s3, true))
      × Inv s3
      × (in_state ready (task s3 id) ≡ true)
readied_lem s id t v h c =
    let idle : contains s.ready.queue id ≡ false = ground (arith, v.queued id) in
    let e : make_ready s id ≡ (enqueued s id t, true) = make_ready-some s id t h ∙ ground arith in
    let inv : Inv (enqueued s id t) = rw e at (make_ready-Inv s id v) in
    let own = (task-eq_some s id h).1 in
    (
      enqueued s id t,
      e,
      inv,
      ground (arith, task-write s id (to_state ready t) id h own, task_id_eq_iff id id),
    )

-- A process that has an image and no binding is bound to the task.
bound_lem :
    (m : ProcessManager) (process : ProcessId) (task : TaskId) (c : Slot) (p : ProcessImage)
    → slot m process ≡ ok c
    → c.image ≡ some p
    → c.binding ≡ none
    → let b : ProcessExecutionBinding = record {
      process = process;
      task = task;
      execution = for_task task;
      address_space = p.address_space.id;
    } in
      (m' : ProcessManager) × (Ops.attach_execution m process task
          (for_task task)
          p.address_space.id
        ≡ (m', ok b))
      × (Ops.binding m' process ≡ ok (some b))
unfolding Ops.attach_execution Ops.bindable Ops.binding slot id_eq new_binding is_some
bound_lem m process task c p h i n =
    let (at, g, o) = slot-ok m process c h in
    let b : ProcessExecutionBinding = record {
      process = process;
      task = task;
      execution = for_task task;
      address_space = p.address_space.id;
    } in
    let m' = put_slot m process.index (record c { binding = some b }) in
    (
      m',
      ground arith,
      rw
          (get_elem?-put m process.index process.index (record c { binding = some b })
            (get_elem?-lt m.slots process.index at))
          (ground arith),
    )

image_lem :
    (m : ProcessManager) (process : ProcessId) (c : Slot) (p : ProcessImage)
    → slot m process ≡ ok c
    → c.image ≡ some p
    → Ops.image m process ≡ ok p
unfolding Ops.image
image_lem m process c p h i = rw (h, Ops.image) (ground arith)

-- The steps of `bind_and_ready`, one after the other.
bind_and_ready_steps :
    (m m' : ProcessManager) (s s1 s2 s3 : Scheduler) (process : ProcessId) (priority : Priority)
    (id : TaskId) (p : ProcessImage) (b : ProcessExecutionBinding)
    → Ops.image m process ≡ ok p
    → create_task_with_kind s priority kernel ≡ some (s1, id)
    → attach_execution s1 id ≡ (s2, ok (for_task id))
    → Ops.attach_execution m process id (for_task id) p.address_space.id ≡ (m', ok b)
    → make_ready s2 id ≡ (s3, true)
    → bind_and_ready m s process priority ≡ some (m', s3, ok id)
unfolding bind_and_ready bind_task ready_task create_task
bind_and_ready_steps m m' s s1 s2 s3 process priority id p b image made attach bind readied =
    ground arith

-- What binding promises: the task is new and ready, and the process is bound to it.
abbrev pub Binds : ProcessManager → Scheduler → ProcessId → ProcessImage → Option Outcome → Type 0
Binds m s process p r =
    (m' : ProcessManager) × (s' : Scheduler) × (id : TaskId) × (r ≡ some (m', s', ok id))
    × (task s id ≡ none)
    × (in_state ready (task s' id) ≡ true)
    × Inv s'
    × (Ops.binding m' process
        ≡ ok (
            some (record {
              process = process;
              task = id;
              execution = for_task id;
              address_space = p.address_space.id;
            })))

-- For a process that is registered, with an image and no binding yet, and a scheduler that satisfies
-- the invariant and has fewer than 2^32 slots, binding succeeds: it creates a task under an identity
-- that named none, the task is ready, the process is bound to it in the address space of its image,
-- and the invariant of the scheduler holds.
pub bind_and_ready-Binds :
    (m : ProcessManager) (s : Scheduler) (process : ProcessId) (priority : Priority) (c : Slot)
    (p : ProcessImage)
    → Inv s
    → length s.tasks ≤ u32_max
    → slot m process ≡ ok c
    → c.image ≡ some p
    → c.binding ≡ none
    → Binds m s process p (bind_and_ready m s process priority)
bind_and_ready-Binds m s process priority c p v room h i n =
    let (s1, id, made, absent, _, _, finds, _, _, _, v1) =
      create_task_with_kind-Creates s priority kernel v room in
    let found : task s1 id ≡ some (new_task kernel id priority) =
      ground (arith, finds id, task_id_eq_iff id id) in
    let (s2, attach, v2, found2) = attached_lem s1 id priority v1 found in
    let (s3, ready_eq, v3, is_ready) =
      readied_lem s2 id _ v2 found2 (unfold new_task new_kernel in refl) in
    let (m', bind, bound) = bound_lem m process id c p h i n in
    (
      m',
      s3,
      id,
      bind_and_ready_steps m m' s s1 s2 s3 process priority id p _ (image_lem m process c p h i)
          made attach bind ready_eq,
      absent,
      is_ready,
      v3,
      bound,
    )
