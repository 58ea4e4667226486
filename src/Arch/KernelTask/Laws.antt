-- ===== src/Arch/KernelTask/Laws.antt =====
-- What the coordinator of kernel tasks promises when a task is spawned, and when it leaves.
use x.Base.{
  ℕ, ◌+◌, ◌≤◌, ◌≡◌, ◌≢◌, refl, ap, true, false, Option, none, some, ◌==◌, length, nat_eq, leb,
  is_some, Result, ok, arith, Option-cases, inl, inr, u32_max, u64_max,
}
use x.Scheduler.Task.{
  TaskId, TaskId_Eq, task_id_eq_iff, Priority, for_task, kernel, ready, new_kernel,
}
use x.Scheduler.State.{Scheduler, task, create_task, create_task_with_kind, new_task}
use x.Scheduler.Ops.{attach_execution, make_ready}
use x.Scheduler.Slots.{task-write, task-eq_some}
use x.Scheduler.Preservation.Ready.{
  make_ready-none, make_ready-some, attach_execution-none, attach_execution-some, attached,
}
use x.Scheduler.Invariant.{Inv, in_state, to_state}
use x.Scheduler.Creation.Spec.{create_task_with_kind-Creates}
use x.Process.Binding.Laws.{attached_lem, readied_lem}
use x.Arch.Slots.{Unique, find_entry, fill, find_entry-fill, Unique-fill}
use x.Arch.Context.{ActivationRecord, is_initialized, bootstrap_context_lem}
use x.Arch.Execution.{
  Allocation, X86ExecutionBinding, new_binding, stack_top, validate, kernel_stack_size,
}
use x.Arch.Registry
use x.Arch.Registry.{ExecutionRegistry, get, task_of}
use x.Arch.KernelTask.{KernelTaskManager, KernelTaskError, spawn, install, expose}

-- The allocator has memory for a stack, below the end of the address space, and the entry trampoline
-- stands somewhere.
abbrev pub Allocates : Allocation → Type 0
Allocates a =
    (start : ℕ) × (a.stack ≡ some start)
    × (start + kernel_stack_size ≤ u64_max)
    × (a.trampoline ≢ 0)

-- With memory, a new binding is there and valid, and belongs to its task.
new_binding-ok :
    (a : Allocation) (id : TaskId) (entry : ℕ)
    → Allocates a
    → (b : X86ExecutionBinding) × (new_binding a id entry ≡ ok b)
      × (b.task_id ≡ id)
      × (validate b ≡ ok tt)
unfolding new_binding validate is_initialized stack_top is_some
new_binding-ok a id entry (start, memory, room, somewhere) =
    let activation : ActivationRecord = record {
      task_id = id;
      entry = entry;
      pointer = a.activation;
    } in
    let (c, made, _, near, _, r12, rip) =
      bootstrap_context_lem (start + kernel_stack_size) activation a.trampoline (omega arith)
        room in
    let fits : leb (start + kernel_stack_size) u64_max ≡ true = ground arith in
    let b : X86ExecutionBinding = record {
      task_id = id;
      stack_start = start;
      stack_len = kernel_stack_size;
      activation = activation;
      context = c;
      interrupted = none;
    } in
    let self : (id == id) ≡ true = (task_id_eq_iff id id).1 refl in
    let p : nat_eq c.rsp 0 ≡ false = ground arith in
    let q : nat_eq c.rip 0 ≡ false = ground arith in
    let r : nat_eq c.r12 a.activation ≡ true = ground arith in
    (b, rw (memory, fits, made, new_binding) refl, refl, rw (p, q, r, self, fits, validate) refl)

-- Neither step of a spawn after the creation takes a task away.
attach_execution-stays :
    (s : Scheduler) (id j : TaskId) → task (attach_execution s id).0 j ≡ none → task s j ≡ none
attach_execution-stays s id j h = elim (Option-cases (task s id)) [
  | inl e ↦ rw (attach_execution-none s id e) at h
  | inr (t, e) ↦ ground (
    arith,
    attach_execution-some s id t e,
    task-write s id (attached t) j e (task-eq_some s id e).1,
    task_id_eq_iff id j,
  )
]

make_ready-stays :
    (s : Scheduler) (id j : TaskId) → task (make_ready s id).0 j ≡ none → task s j ≡ none
make_ready-stays s id j h = elim (Option-cases (task s id)) [
  | inl e ↦ rw (make_ready-none s id e) at h
  | inr (t, e) ↦ ground (
    arith,
    make_ready-some s id t e,
    task-write s id (to_state ready t) j e (task-eq_some s id e).1,
    task_id_eq_iff id j,
  )
]

-- The scheduler is sound, no task has two execution bindings, and only tasks that exist have one.
pub record Owned (m : KernelTaskManager) : Type 0 where
  pub sound : Inv m.scheduler
  pub unique : Unique task_of m.executions.entries
  pub live : (j : TaskId) → task m.scheduler j ≡ none → get m.executions j ≡ none

insert-ok :
    (a : Allocation) (r : ExecutionRegistry) (id : TaskId) (entry : ℕ) (b : X86ExecutionBinding)
    → get r id ≡ none
    → new_binding a id entry ≡ ok b
    → Registry.insert a r (for_task id) entry
      ≡ (record { entries = fill task_of r.entries b }, ok tt)
unfolding Registry.insert is_some
insert-ok a r id entry b free made = rw (free, made, Registry.insert) refl

install_steps :
    (a : Allocation) (m : KernelTaskManager) (s2 s3 : Scheduler) (r : ExecutionRegistry)
    (id : TaskId) (entry : ℕ)
    → attach_execution m.scheduler id ≡ (s2, ok (for_task id))
    → Registry.insert a m.executions (for_task id) entry ≡ (r, ok tt)
    → make_ready s2 id ≡ (s3, true)
    → install a m id entry ≡ (record m { scheduler = s3; executions = r }, ok id)
unfolding install expose
install_steps a m s2 s3 r id entry attach insert readied =
    rw (attach, insert, install) (rw (attach, insert) (rw (readied, expose) refl))

spawn_steps :
    (a : Allocation) (m : KernelTaskManager) (priority : Priority) (entry : ℕ) (s1 : Scheduler)
    (id : TaskId) {r : KernelTaskManager × Result KernelTaskError TaskId}
    → create_task_with_kind m.scheduler priority kernel ≡ some (s1, id)
    → install a (record m { scheduler = s1 }) id entry ≡ r
    → spawn a m priority entry ≡ some r
unfolding spawn create_task
spawn_steps a m priority entry s1 id made installed = rw (made, spawn) (ap some installed)

-- What a spawn promises: a new task is ready, its execution is registered and valid, and the other
-- executions are as they were.
abbrev pub Spawns :
    KernelTaskManager → Option (KernelTaskManager × Result KernelTaskError TaskId) → Type 0
Spawns m r =
    (m' : KernelTaskManager) × (id : TaskId) × (r ≡ some (m', ok id))
    × (task m.scheduler id ≡ none)
    × (in_state ready (task m'.scheduler id) ≡ true)
    × (Registry.is_valid m'.executions (for_task id) ≡ true)
    × ((j : TaskId) → j ≢ id → get m'.executions j ≡ get m.executions j)
    × Owned m'

-- Where the scheduler has fewer than 2^32 slots and the allocator has memory for a stack, spawning a
-- kernel task succeeds: the task is new and ready, its execution is registered and passes its
-- validation, no other execution changes, and the coordinator is sound again.
pub spawn-Spawns :
    (a : Allocation) (m : KernelTaskManager) (priority : Priority) (entry : ℕ)
    → Owned m
    → length m.scheduler.tasks ≤ u32_max
    → Allocates a
    → Spawns m (spawn a m priority entry)
unfolding spawn create_task get Registry.is_valid is_some
spawn-Spawns a m priority entry o room memory =
    let s = m.scheduler in
    let r = m.executions in
    let (s1, id, made, absent, _, _, finds, _, _, _, v1) =
      create_task_with_kind-Creates s priority kernel o.sound room in
    let found : task s1 id ≡ some (new_task kernel id priority) =
      ground (arith, finds id, task_id_eq_iff id id) in
    let (s2, attach, v2, found2) = attached_lem s1 id priority v1 found in
    let (s3, readied, v3, is_ready) =
      readied_lem s2 id _ v2 found2 (unfold new_task new_kernel in refl) in
    let (b, bound, own, valid) = new_binding-ok a id entry memory in
    let free = o.live id absent in
    let fresh : find_entry task_of r.entries (task_of b) ≡ none = rw own free in
    let r' : ExecutionRegistry = record { entries = fill task_of r.entries b } in
    let m1 : KernelTaskManager = record m { scheduler = s1 } in
    let m' : KernelTaskManager = record m { scheduler = s3; executions = r' } in
    let finds' = λ (j : TaskId). find_entry-fill task_of r.entries b j fresh in
    let stays = λ (j : TaskId) (h : task s3 j ≡ none).
      attach_execution-stays s1 id j (rw attach (make_ready-stays s2 id j (rw readied h))) in
    (
      m',
      id,
      spawn_steps a m priority entry s1 id made (
          install_steps a m1 s2 s3 r' id entry attach (insert-ok a r id entry b free bound)
            readied),
      absent,
      is_ready,
      rw (finds' id, own, (task_id_eq_iff id id).1 refl, valid, Registry.is_valid) refl,
      λ j other. ground (arith, finds' j, task_id_eq_iff id j),
      record {
        sound = v3;
        unique = Unique-fill task_of r.entries b fresh o.unique;
        live = λ j h. ground (arith, finds' j, stays j h, finds j, o.live j, task_id_eq_iff id j);
      },
    )
