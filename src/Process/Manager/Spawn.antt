-- ===== src/Process/Manager/Spawn.antt =====
-- What `register_ready` and `spawn_ready` of kernel/src/process/manager.rs add to the registry.
use x.Base.{
  ℕ, zero, suc, ◌+◌, ◌%◌, ◌^◌, ◌<◌, ◌≡◌, refl, false, none, some, length, get_elem?, get_elem?-lt,
  is_some, u32_max, leb, arith, nat_eq, nat_eq_iff, Bool-cases, Option-cases, Result-cases, inl,
  inr, Result, ok, err, ◌⊎◌,
}
use x.Scheduler.Task.{TaskId, ExecutionHandle}
use x.Process.AddressSpace.{AddressSpaceId}
use x.Process.Identity.{ProcessId, ready}
use x.Process.Image.{ProcessImage}
use x.Process.Manager.{
  ProcessManager, ProcessManagerError, Slot, emptied, slot, put, max_processes, claim, full,
  generation_exhausted, invalid_process,
}
use x.Process.Manager.Ops.{
  register_from, register_ready, attach_execution, bindable, remove_registered, bind_registered,
  spawn_ready,
}
use x.Process.Manager.Slots.{get_elem?-put}

abbrev fresh : ProcessImage → ℕ → Slot
fresh image generation = record {
  generation = generation;
  image = some image;
  state = some ready;
  binding = none;
  exit_code = none;
}

-- What a registration that succeeds does: it takes a slot that is free, at its next generation.
pub record Registers (m n : ProcessManager) (image : ProcessImage) (id : ProcessId) : Type 0 where
  pub old : Slot
  pub at : get_elem? m.slots id.index ≡ some old
  pub was_free : is_some old.state ≡ false
  pub next : id.generation ≡ old.generation + 1
  pub made : n.slots ≡ (put m id.index (fresh image id.generation)).slots

abbrev Registration :
    ProcessManager → ProcessImage → ProcessManager × Result ProcessManagerError ProcessId → Type 0
Registration m image r =
    ((e : ProcessManagerError) × (r ≡ (m, err e)))
    ⊎ ((n : ProcessManager) × (id : ProcessId) × (r ≡ (n, ok id)) × Registers m n image id)

claim-Registration :
    (m : ProcessManager) (image : ProcessImage) (i : ℕ) (s : Slot)
    → i < max_processes
    → get_elem? m.slots i ≡ some s
    → is_some s.state ≡ false
    → Registration m image (claim m image i s)
unfolding claim
claim-Registration m image i s b at free = elim (Bool-cases (leb (s.generation + 1) u32_max)) [
  | inr e ↦ inl (generation_exhausted, rw (e, claim) refl)
  | inl e ↦
      let k : i ≡ i % 2 ^ 32 = omega arith in
      let id : ProcessId = record { index = i % 2 ^ 32; generation = s.generation + 1 } in
      let n : ProcessManager = record (put m i (fresh image (s.generation + 1))) {
        next_hint = (i + 1) % max_processes;
      } in
      inr (
        n,
        id,
        rw (e, claim) refl,
        record { old = s; at = rw (← k) at; was_free = free; next = refl; made = rw (← k) refl },
      )
]

register_from-Registration :
    (rounds offset : ℕ) (m : ProcessManager) (image : ProcessImage)
    → Registration m image (register_from rounds offset m image)
unfolding register_from
register_from-Registration zero offset m image = inl (full, refl)
register_from-Registration (suc rounds) offset m image =
    let index = (m.next_hint + offset) % max_processes in
    elim (Option-cases (get_elem? m.slots index)) [
      | inl e ↦ inl (full, rw (e, register_from) refl)
      | inr (s, e) ↦
          rw (e, register_from)
            (elim (Bool-cases (is_some s.state)) [
              | inl t ↦ rw t (register_from-Registration rounds (suc offset) m image)
              | inr t ↦ rw t (claim-Registration m image index s (omega arith) e t)
            ])
    ]

register_ready-Registration :
    (m : ProcessManager) (image : ProcessImage) → Registration m image (register_ready m image)
unfolding register_ready
register_ready-Registration m image = register_from-Registration max_processes 0 m image

attach-err :
    (m : ProcessManager) (id : ProcessId) (task : TaskId) (execution : ExecutionHandle)
    (space : AddressSpaceId) (e : ProcessManagerError)
    → (attach_execution m id task execution space).1 ≡ err e
    → (attach_execution m id task execution space).0 ≡ m
unfolding attach_execution
attach-err m id task execution space e h = elim (Result-cases (slot m id)) [
  | inr (x, k) ↦ rw (k, attach_execution) refl
  | inl (s, k) ↦ elim (Result-cases (bindable id task execution space s)) [
    | inr (x, l) ↦ rw (k, l, attach_execution) refl
    | inl (b, l) ↦ absurd (ground arith)
  ]
]

free-slot :
    (m : ProcessManager) (j : ProcessId) (s : Slot)
    → get_elem? m.slots j.index ≡ some s
    → is_some s.state ≡ false
    → slot m j ≡ err invalid_process
unfolding slot
free-slot m j s at free = rw (at, slot) (ground (arith, free))

registered-slot :
    (m n : ProcessManager) (image : ProcessImage) (id : ProcessId)
    → Registers m n image id
    → slot n id ≡ ok (fresh image id.generation)
unfolding slot is_some
registered-slot m n image id r =
    rw
      (
        r.made,
        get_elem?-put m id.index id.index (fresh image id.generation)
            (get_elem?-lt m.slots id.index r.at),
      )
      (ground arith)

removed :
    (m n : ProcessManager) (image : ProcessImage) (id j : ProcessId)
    → Registers m n image id
    → slot (remove_registered n id).0 j ≡ slot m j
unfolding remove_registered is_some
removed m n image id j r =
    let b = get_elem?-lt m.slots id.index r.at in
    let g = λ (k : ℕ). get_elem?-put m id.index k (fresh image id.generation) b in
    let inside : id.index < length n.slots =
      get_elem?-lt n.slots id.index {a = fresh image id.generation}
        (rw (r.made, g id.index) (ground arith)) in
    rw (registered-slot m n image id r, remove_registered)
      (elim (Bool-cases (nat_eq id.index j.index)) [
        | inl same ↦
            let e : id.index ≡ j.index = (nat_eq_iff id.index j.index).0 same in
            rw (free-slot m j r.old (rw (← e) r.at) r.was_free) (
              free-slot (put n id.index (emptied id.generation)) j (emptied id.generation)
                (ground (arith, get_elem?-put n id.index j.index (emptied id.generation) inside))
                refl)
        | inr other ↦
            unfold slot in
            rw (get_elem?-put n id.index j.index (emptied id.generation) inside, r.made, g j.index)
              (ground arith)
      ])

bind_registered-err :
    (m n : ProcessManager) (image : ProcessImage) (id j : ProcessId) (task : TaskId)
    (execution : ExecutionHandle) (space : AddressSpaceId) (e : ProcessManagerError)
    → Registers m n image id
    → (bind_registered n id task execution space).1 ≡ err e
    → slot (bind_registered n id task execution space).0 j ≡ slot m j
unfolding bind_registered
bind_registered-err m n image id j task execution space e r h =
    elim (Result-cases (attach_execution n id task execution space).1) [
      | inl (b, k) ↦ absurd (ground arith)
      | inr (x, k) ↦
          rw (k, bind_registered)
            (rw (attach-err n id task execution space x k) (removed m n image id j r))
    ]

-- A spawn that fails leaves no trace that an identity can see: every identity finds in the registry
-- what it found before.
pub spawn_ready-RollsBack :
    (m : ProcessManager) (image : ProcessImage) (task : TaskId) (execution : ExecutionHandle)
    (space : AddressSpaceId) (e : ProcessManagerError) (j : ProcessId)
    → (spawn_ready m image task execution space).1 ≡ err e
    → slot (spawn_ready m image task execution space).0 j ≡ slot m j
unfolding spawn_ready
spawn_ready-RollsBack m image task execution space e j h =
    elim (register_ready-Registration m image) [
      | inl (x, k) ↦ rw (k, spawn_ready) (rw k refl)
      | inr (n, id, k, r) ↦
          let h' : (bind_registered n id task execution space).1 ≡ err e =
            rw k at (rw (k, spawn_ready) at h) in
          rw (k, spawn_ready)
            (rw k (bind_registered-err m n image id j task execution space e r h'))
    ]
