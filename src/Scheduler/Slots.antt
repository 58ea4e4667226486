-- ===== src/Scheduler/Slots.antt =====
-- The slot table as a map from task identities: what a write, a clear and a creation change in it.
use x.Base.{
  u32_max, ℕ, zero, suc, ◌≤◌, ◌<◌, ◌≡◌, ◌≢◌, ap, false, Option, none, some, List, [], ◌∷◌, length,
  get_elem?, set, ◌==◌, if◌then◌else◌, arith, inl, inr, Bool-cases, u32_max, length-set,
  get_elem?-lt, get_elem?-set_self, get_elem?-set_ne, nat_eq, nat_eq_iff,
}
use x.Scheduler.Task.{TaskId, TaskId_Eq, TaskControlBlock, task_id_eq_iff}
use x.Scheduler.State.{Scheduler, Slot, held, find, put, task, write, clear}

-- An occupied slot holds the task of its own index, at the generation recorded for the slot; every
-- generation is a `u32`.
pub record Slots (s : Scheduler) : Type 0 where
  pub aligned : length s.tasks ≡ length s.generations
  pub bounded : (i g : ℕ) → get_elem? s.generations i ≡ some g → g ≤ u32_max
  pub owner :
      (i : ℕ) (t : TaskControlBlock)
      → get_elem? s.tasks i ≡ some (some t)
      → (t.id.index ≡ i) × (get_elem? s.generations i ≡ some t.id.generation)

held-eq_some :
    (id : TaskId) (o : Option Slot) {t : TaskControlBlock}
    → held id o ≡ some t
    → (o ≡ some (some t)) × (t.id ≡ id)
held-eq_some id none h = ground arith
held-eq_some id (some none) h = ground arith
held-eq_some id (some (some u)) h = ground (arith, task_id_eq_iff u.id id)

-- A task that is found is in the slot of its index, and has the identity asked for.
pub task-eq_some :
    (s : Scheduler) (id : TaskId) {t : TaskControlBlock}
    → task s id ≡ some t
    → (get_elem? s.tasks id.index ≡ some (some t)) × (t.id ≡ id)
unfolding find
task-eq_some s id h = held-eq_some id (get_elem? s.tasks id.index) h

held_self : (id : TaskId) (t : TaskControlBlock) → t.id ≡ id → held id (some (some t)) ≡ some t
held_self id t e = ground (arith, task_id_eq_iff t.id id)

pub task_of_slot :
    (s : Scheduler) (id : TaskId) (t : TaskControlBlock)
    → get_elem? s.tasks id.index ≡ some (some t)
    → t.id ≡ id
    → task s id ≡ some t
unfolding find
task_of_slot s id t g e = rw g (held_self id t e)

index_ne : (a b : TaskId) → a.index ≢ b.index → (a == b) ≡ false
index_ne a b h = elim (Bool-cases (a == b)) [
  | inl e ↦ absurd (h (ap (λ (c : TaskId). c.index) ((task_id_eq_iff a b).0 e)))
  | inr e ↦ e
]

held_other :
    (id : TaskId) (t : TaskControlBlock) (j : TaskId)
    → t.id ≡ id
    → held j (some (some t)) ≡ (if id == j then some t else none)
held_other id t j e = rw e

-- A write to the slot of a task that is there changes that task and no other.
pub task-write :
    (s : Scheduler) (id : TaskId) (t' : TaskControlBlock) (j : TaskId) {t : TaskControlBlock}
    → task s id ≡ some t
    → t'.id ≡ id
    → task (write s id t') j ≡ (if id == j then some t' else task s j)
unfolding find put
task-write s id t' j {t} h e =
    let (slot, own) = task-eq_some s id h in
    elim (Bool-cases (nat_eq id.index j.index)) [
      | inl same ↦
          let i : id.index ≡ j.index = (nat_eq_iff id.index j.index).0 same in
          rw (← i) (
            rw
              (
                get_elem?-set_self s.tasks id.index (some t') (get_elem?-lt s.tasks id.index slot),
                slot,
              )
              (ground (arith, held_other id t' j e, held_other id t j own)))
      | inr other ↦
          let ne : id.index ≢ j.index = ground arith in
          rw (get_elem?-set_ne s.tasks id.index j.index (some t') ne, index_ne id j ne)
    ]

-- Clearing the slot of a task that is there removes that task and no other.
pub task-clear :
    (s : Scheduler) (id : TaskId) (j : TaskId) {t : TaskControlBlock}
    → task s id ≡ some t
    → task (clear s id) j ≡ (if id == j then none else task s j)
unfolding find put
task-clear s id j {t} h =
    let (slot, own) = task-eq_some s id h in
    elim (Bool-cases (nat_eq id.index j.index)) [
      | inl same ↦
          let i : id.index ≡ j.index = (nat_eq_iff id.index j.index).0 same in
          rw (← i) (
            rw (get_elem?-set_self s.tasks id.index none (get_elem?-lt s.tasks id.index slot), slot)
              (ground (arith, held_other id t j own)))
      | inr other ↦
          let ne : id.index ≢ j.index = ground arith in
          rw (get_elem?-set_ne s.tasks id.index j.index none ne, index_ne id j ne)
    ]

pub write-Slots :
    (s : Scheduler) (id : TaskId) (t' : TaskControlBlock) {t : TaskControlBlock}
    → task s id ≡ some t
    → t'.id ≡ id
    → Slots s
    → Slots (write s id t')
unfolding put
write-Slots s id t' {t} h e v =
    let (slot, own) = task-eq_some s id h in
    record {
      aligned = omega (arith, length-set s.tasks id.index (some t'), v.aligned);
      bounded = v.bounded;
      owner = λ i u g. elim (Bool-cases (nat_eq id.index i)) [
        | inl same ↦
            let k : id.index ≡ i = (nat_eq_iff id.index i).0 same in
            let b : id.index < length s.tasks = get_elem?-lt s.tasks id.index slot in
            ground (arith, get_elem?-set_self s.tasks id.index (some t') b, v.owner id.index t slot)
        | inr other ↦
            v.owner i u (rw (get_elem?-set_ne s.tasks id.index i (some t') (ground arith)) at g)
      ];
    }

-- A slot that was cleared is not occupied.
cleared :
    (ts : List Slot) (k i : ℕ) (u : TaskControlBlock)
    → k ≡ i
    → get_elem? (set ts k none) i ≢ some (some u)
cleared [] k i u e g = ground arith
cleared (t ∷ ts) zero zero u e g = ground arith
cleared (t ∷ ts) zero (suc i) u e g = absurd (omega arith)
cleared (t ∷ ts) (suc k) zero u e g = absurd (omega arith)
cleared (t ∷ ts) (suc k) (suc i) u e g = cleared ts k i u (omega arith) g

pub clear-Slots : (s : Scheduler) (id : TaskId) → Slots s → Slots (clear s id)
unfolding put
clear-Slots s id v = record {
  aligned = omega (arith, length-set {0} s.tasks id.index none, v.aligned);
  bounded = v.bounded;
  owner = λ i u g. elim (Bool-cases (nat_eq id.index i)) [
    | inl same ↦ absurd (cleared s.tasks id.index i u ((nat_eq_iff id.index i).0 same) g)
    | inr other ↦ v.owner i u (rw (get_elem?-set_ne s.tasks id.index i none (ground arith)) at g)
  ];
}
