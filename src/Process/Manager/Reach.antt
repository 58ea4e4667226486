-- ===== src/Process/Manager/Reach.antt =====
-- The registries that a sequence of operations reaches from the empty one.
use x.Base.{
  ℕ, zero, suc, ◌≤◌, ◌≡◌, refl, subst, false, some, length, get_elem?, is_some, arith, inl, inr, ok,
  err, Result-cases, get_elem?-lt,
}
use x.Scheduler.Task.{TaskId, ExecutionHandle}
use x.Process.AddressSpace.{AddressSpaceId}
use x.Process.Identity.{ProcessId}
use x.Process.Image.{ProcessImage}
use x.Process.Manager.{
  ProcessManager, invalid_process, ReapedProcess, Slot, emptied, slot, max_processes, new,
  replicate,
}
use x.Process.Manager.Ops.{
  register_ready, attach_execution, spawn_ready, start, yield_to, request_exit, exit, reap,
  reapable, abort_ready, contains,
}
use x.Process.Manager.Slots.{
  IsGood, IsValid, emptied-IsGood, Keeps, Keeps-refl, Keeps-trans, slot-ok, get_elem?-put,
}
use x.Process.Manager.Keeping.{register_from-Keeps, attach-Keeps, spawn-Keeps}
use x.Process.Manager.Keeping.Ending.{start-Keeps, request_exit-Keeps, reap-Keeps, abort-Keeps}
use x.Process.Manager.Yield.{yield_to-Keeps}

-- One public operation of the registry, at any arguments.
pub data Step : ProcessManager → ProcessManager → Type 0 where
  registers : (m : ProcessManager) (image : ProcessImage) → Step m (register_ready m image).0
  spawns :
      (m : ProcessManager) (image : ProcessImage) (task : TaskId) (execution : ExecutionHandle)
      (space : AddressSpaceId)
      → Step m (spawn_ready m image task execution space).0
  attaches :
      (m : ProcessManager) (id : ProcessId) (task : TaskId) (execution : ExecutionHandle)
      (space : AddressSpaceId)
      → Step m (attach_execution m id task execution space).0
  starts : (m : ProcessManager) (id : ProcessId) → Step m (start m id).0
  yields :
      (m : ProcessManager) (current successor : ProcessId) → Step m (yield_to m current successor).0
  requests_exit :
      (m : ProcessManager) (id : ProcessId) (code : ℕ) → Step m (request_exit m id code).0
  exits : (m : ProcessManager) (id : ProcessId) → Step m (exit m id).0
  reaps : (m : ProcessManager) (id : ProcessId) → Step m (reap m id).0
  aborts : (m : ProcessManager) (id : ProcessId) → Step m (abort_ready m id).0

pub data Steps : ProcessManager → ProcessManager → Type 0 where
  stay : (m : ProcessManager) → Steps m m
  step : {m n k : ProcessManager} → Steps m n → Step n k → Steps m k

Step-Keeps : {m n : ProcessManager} → Step m n → IsValid m → Keeps m n
Step-Keeps (registers m image) v =
    unfold register_ready in register_from-Keeps max_processes 0 m image v
Step-Keeps (spawns m image task execution space) v = spawn-Keeps m image task execution space v
Step-Keeps (attaches m id task execution space) v = attach-Keeps m id task execution space v
Step-Keeps (starts m id) v = start-Keeps m id v
Step-Keeps (yields m a b) v = yield_to-Keeps m a b v
Step-Keeps (requests_exit m id code) v = request_exit-Keeps m id code v
Step-Keeps (exits m id) v = unfold exit in request_exit-Keeps m id 0 v
Step-Keeps (reaps m id) v = reap-Keeps m id v
Step-Keeps (aborts m id) v = abort-Keeps m id v

Steps-Keeps : {m n : ProcessManager} → Steps m n → IsValid m → Keeps m n
Steps-Keeps (stay m) v = Keeps-refl m v
Steps-Keeps (step {m} {n} {k} s t) v =
    let a = Steps-Keeps s v in Keeps-trans m n k a (Step-Keeps t a.valid)

replicate-length : (n : ℕ) (s : Slot) → length (replicate n s) ≡ n
replicate-length zero s = refl
replicate-length (suc n) s = omega (arith, replicate-length n s)

replicate-get : (n i : ℕ) (s t : Slot) → get_elem? (replicate n s) i ≡ some t → s ≡ t
replicate-get zero i s t h = ground arith
replicate-get (suc n) zero s t h = ground arith
replicate-get (suc n) (suc i) s t h = replicate-get n i s t h

new-IsValid : IsValid new
new-IsValid = record {
  size = replicate-length max_processes (emptied 0);
  hint = omega arith;
  good = λ i s e.
      subst (λ x. IsGood i x) (replicate-get max_processes i (emptied 0) s e)
        (emptied-IsGood i 0 (omega arith));
}

-- Every registry that the public operations reach from the empty one is valid: of 256 slots, each
-- has an image exactly when it is occupied, an exit code exactly when its process has exited, and a
-- binding when the process runs; and a binding names the process of its slot and generation, its
-- own task, and the address space of the image.
pub Steps-IsValid : (m : ProcessManager) → Steps new m → IsValid m
Steps-IsValid m s = (Steps-Keeps s new-IsValid).valid

-- Nothing will be found under this identity: its slot has moved on, or is free at its generation.
pub record IsGone (m : ProcessManager) (id : ProcessId) : Type 0 where
  pub held : Slot
  pub at : get_elem? m.slots id.index ≡ some held
  pub passed : id.generation ≤ held.generation
  pub free : held.generation ≡ id.generation → is_some held.state ≡ false

Keeps-IsGone : (m n : ProcessManager) (id : ProcessId) → Keeps m n → IsGone m id → IsGone n id
Keeps-IsGone m n id k g =
    let (t, e, a) = k.later id.index g.held g.at in
    record {
      held = t;
      at = e;
      passed = omega (arith, g.passed, a.grows);
      free = λ p.
          a.freed (omega (arith, g.passed, a.grows)) (g.free (omega (arith, g.passed, a.grows)));
    }

IsGone-slot : (m : ProcessManager) (id : ProcessId) → IsGone m id → slot m id ≡ err invalid_process
unfolding slot
IsGone-slot m id g = rw (g.at, slot) (ground (arith, g.free))

reap-IsGone :
    (m : ProcessManager) (id : ProcessId) (r : ReapedProcess)
    → (reap m id).1 ≡ ok r
    → IsGone (reap m id).0 id
unfolding reap
reap-IsGone m id r h = elim (Result-cases (slot m id)) [
  | inr (e, k) ↦ absurd (ground arith)
  | inl (s, k) ↦ elim (Result-cases (reapable id s)) [
    | inr (e, l) ↦ absurd (ground arith)
    | inl (q, l) ↦
        let (at, g, _) = slot-ok m id s k in
        rw (k, l, reap)
          (record {
            held = emptied s.generation;
            at = ground (
              arith,
              get_elem?-put m id.index id.index (emptied s.generation)
                  (get_elem?-lt m.slots id.index at),
            );
            passed = omega arith;
            free = λ e. unfold is_some in refl;
          })
  ]
]

-- A process that was reaped stays gone: whatever operations follow, its identity finds nothing in
-- the registry, also when its slot holds another process.
pub reap-Stale :
    (m n : ProcessManager) (id : ProcessId) (r : ReapedProcess)
    → Steps new m
    → (reap m id).1 ≡ ok r
    → Steps (reap m id).0 n
    → (slot n id ≡ err invalid_process) × (contains n id ≡ false)
unfolding contains
reap-Stale m n id r s h t =
    let v = (Step-Keeps (reaps m id) (Steps-IsValid m s)).valid in
    let k = Steps-Keeps t v in
    let e = IsGone-slot n id (Keeps-IsGone (reap m id).0 n id k (reap-IsGone m id r h)) in
    (e, rw (e, contains) refl)
