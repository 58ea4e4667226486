-- ===== src/Process/Manager/Keeping.antt =====
-- The operations that create and bind a process keep the registry valid.
pub mod Ending
use x.Base.{
  ℕ, zero, suc, ◌+◌, ◌%◌, ◌≤◌, ◌≡◌, refl, true, ◌||◌, none, some, get_elem?, is_some, u32_max,
  arith, Bool-cases, Option-cases, Result-cases, inl, inr, ok, leb,
}
use x.Scheduler.Task.{TaskId, ExecutionHandle}
use x.Process.AddressSpace.{AddressSpaceId, id_eq}
use x.Process.Identity.{
  ProcessId, ProcessExecutionBinding, ProcessState, running, exited, ready, new_binding,
}
use x.Process.Image.{ProcessImage}
use x.Process.Manager.{ProcessManager, Slot, has_state, emptied, slot, put, max_processes, claim}
use x.Process.Manager.Ops.{
  register_from, register_ready, attach_execution, bindable, remove_registered, bind_registered,
  spawn_ready, start, request_exit, reap, reapable, abort_ready,
}
use x.Process.Manager.Slots.{
  IsGood, IsValid, Aged, Keeps, Keeps-refl, Keeps-trans, put-Keeps, hinted-Keeps, emptied-IsGood,
  slot-ok, slot-index,
}

pub found :
    (m : ProcessManager) (id : ProcessId) (s : Slot)
    → IsValid m
    → slot m id ≡ ok s
    → IsGood id.index s
found m id s v h = v.good id.index s (slot-ok m id s h).0

pub registered-IsGood :
    (image : ProcessImage) (i g : ℕ)
    → g ≤ u32_max
    → IsGood i (record {
      generation = g;
      image = some image;
      state = some ready;
      binding = none;
      exit_code = none;
    })
unfolding is_some
registered-IsGood image i g h = record {
  bounded = h;
  imaged = refl;
  coded = refl;
  bound = λ e. ground arith;
  owned = λ e. refl;
  process = λ b e. ground arith;
  task = λ b e. ground arith;
  space = λ b p e f. ground arith;
}

pub claim-Keeps :
    (m : ProcessManager) (image : ProcessImage) (i : ℕ) (s : Slot)
    → get_elem? m.slots i ≡ some s
    → IsValid m
    → Keeps m (claim m image i s).0
unfolding claim
claim-Keeps m image i s h v = elim (Bool-cases (leb (s.generation + 1) u32_max)) [
  | inr e ↦ rw (e, claim) (Keeps-refl m v)
  | inl e ↦
      rw (e, claim)
        (hinted-Keeps m _ ((i + 1) % max_processes) (omega arith) (
          put-Keeps m i s _ h (registered-IsGood image i (s.generation + 1) (ground arith))
            (record { grows = omega arith; freed = λ g f. absurd (omega arith) }) v))
]

pub register_from-Keeps :
    (rounds offset : ℕ) (m : ProcessManager) (image : ProcessImage)
    → IsValid m
    → Keeps m (register_from rounds offset m image).0
unfolding register_from
register_from-Keeps zero offset m image v = Keeps-refl m v
register_from-Keeps (suc rounds) offset m image v =
    let index = (m.next_hint + offset) % max_processes in
    elim (Option-cases (get_elem? m.slots index)) [
      | inl e ↦ rw (e, register_from) (Keeps-refl m v)
      | inr (s, e) ↦
          rw (e, register_from)
            (elim (Bool-cases (is_some s.state)) [
              | inl t ↦ rw t (register_from-Keeps rounds (suc offset) m image v)
              | inr t ↦ rw t (claim-Keeps m image index s e v)
            ])
    ]

bindable-IsGood :
    (id : ProcessId) (task : TaskId) (execution : ExecutionHandle) (space : AddressSpaceId)
    (s : Slot) (b : ProcessExecutionBinding)
    → bindable id task execution space s ≡ ok b
    → s.generation ≡ id.generation
    → is_some s.state ≡ true
    → IsGood id.index s
    → IsGood id.index (record s { binding = some b })
unfolding bindable new_binding id_eq is_some
bindable-IsGood id task execution space s b h g o v = record {
  bounded = v.bounded;
  imaged = v.imaged;
  coded = v.coded;
  bound = λ e. refl;
  owned = λ e. absurd (ground arith);
  process = λ c e. ground arith;
  task = λ c e. ground arith;
  space = λ c p e f. ground arith;
}

pub attach-Keeps :
    (m : ProcessManager) (id : ProcessId) (task : TaskId) (execution : ExecutionHandle)
    (space : AddressSpaceId)
    → IsValid m
    → Keeps m (attach_execution m id task execution space).0
unfolding attach_execution
attach-Keeps m id task execution space v = elim (Result-cases (slot m id)) [
  | inr (e, h) ↦ rw (h, attach_execution) (Keeps-refl m v)
  | inl (s, h) ↦
      rw (h, attach_execution)
        (elim (Result-cases (bindable id task execution space s)) [
          | inr (e, k) ↦ rw k (Keeps-refl m v)
          | inl (b, k) ↦
              let (at, g, o) = slot-ok m id s h in
              rw k (
                put-Keeps m id.index s _ at
                  (bindable-IsGood id task execution space s b k g o (found m id s v h))
                  (record { grows = omega arith; freed = λ p q. q }) v)
        ])
]

pub removed-Keeps :
    (m : ProcessManager) (id : ProcessId) (s : Slot)
    → slot m id ≡ ok s
    → IsValid m
    → Keeps m (put m id.index (emptied s.generation))
removed-Keeps m id s h v =
    put-Keeps m id.index s _ (slot-ok m id s h).0
      (emptied-IsGood id.index s.generation (found m id s v h).bounded)
      (record { grows = omega arith; freed = λ p q. unfold is_some in refl }) v

pub remove-Keeps :
    (m : ProcessManager) (id : ProcessId) → IsValid m → Keeps m (remove_registered m id).0
unfolding remove_registered
remove-Keeps m id v = elim (Result-cases (slot m id)) [
  | inr (e, h) ↦ rw (h, remove_registered) (Keeps-refl m v)
  | inl (s, h) ↦ rw (h, remove_registered) (removed-Keeps m id s h v)
]

bind_registered-Keeps :
    (m : ProcessManager) (id : ProcessId) (task : TaskId) (execution : ExecutionHandle)
    (space : AddressSpaceId)
    → IsValid m
    → Keeps m (bind_registered m id task execution space).0
unfolding bind_registered
bind_registered-Keeps m id task execution space v =
    let r = attach_execution m id task execution space in
    let k = attach-Keeps m id task execution space v in
    elim (Result-cases r.1) [
      | inl (b, h) ↦ rw (h, bind_registered) k
      | inr (e, h) ↦ rw (h, bind_registered) (Keeps-trans m r.0 _ k (remove-Keeps r.0 id k.valid))
    ]

pub spawn-Keeps :
    (m : ProcessManager) (image : ProcessImage) (task : TaskId) (execution : ExecutionHandle)
    (space : AddressSpaceId)
    → IsValid m
    → Keeps m (spawn_ready m image task execution space).0
unfolding spawn_ready register_ready
spawn-Keeps m image task execution space v =
    let r = register_from max_processes 0 m image in
    let k = register_from-Keeps max_processes 0 m image v in
    elim (Result-cases r.1) [
      | inr (e, h) ↦ rw (h, spawn_ready) k
      | inl (id, h) ↦
          rw (h, spawn_ready)
            (Keeps-trans m r.0 _ k (bind_registered-Keeps r.0 id task execution space k.valid))
    ]
