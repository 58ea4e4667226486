-- ===== src/Scheduler/Creation.antt =====
-- Task creation: it never panics, gives an identity that no earlier task had, and keeps the
-- invariant.
pub mod Spec
use x.Base.{
  ℕ, zero, suc, ◌+◌, ◌%◌, ◌^◌, ◌≤◌, ◌<◌, ◌≡◌, ◌≢◌, ◌⊎◌, ◌∙◌, refl, sym, ap, Bool, true, false, ◌||◌,
  Option, none, some, List, [], ◌∷◌, ◌++◌, ◌==◌, if◌then◌else◌, arith, contains, inl, inr,
  Bool-cases, Option-cases, length, get_elem?, set, nat_eq, nat_eq_iff, u32_max, leb, length-set,
  length-append, get_elem?-lt, get_elem?-set_self, get_elem?-set_ne, get_elem?-append_left,
  get_elem?-append_last, get_elem?-ge,
}
use x.Scheduler.Task.{
  TaskId, TaskId_Eq, TaskState_Eq, TaskKind, kernel, userspace, created, ready, running, Priority,
  TaskControlBlock, task_id_eq, task_id_eq_iff, new_kernel, new_userspace,
}
use x.Scheduler.State.{
  Scheduler, Slot, held, find, task, SlotSearch, found, not_found, out_of_bounds, free_slot,
  new_task, occupy, create_task_with_kind,
}
use x.Scheduler.Slots.{Slots}
use x.Scheduler.Invariant.{Inv, in_state}

-- What the search for a free slot promises.
abbrev Search : List Slot → List ℕ → SlotSearch → Type 0
Search ts gs (found k) =
    (get_elem? ts k ≡ some none) × ((g : ℕ) × (get_elem? gs k ≡ some g) × (g ≢ u32_max))
Search ts gs not_found = Unit {0}
Search ts gs out_of_bounds = ⊥

abbrev Suffix : List Slot → List Slot → ℕ → Type 0
Suffix ts whole i = (k : ℕ) → get_elem? ts k ≡ get_elem? whole (i + k)

Suffix-tail :
    (t : Slot) (ts whole : List Slot) (i : ℕ) → Suffix (t ∷ ts) whole i → Suffix ts whole (suc i)
Suffix-tail t ts whole i h k =
    let e : i + suc k ≡ suc i + k = omega arith in h (suc k) ∙ ap (get_elem? whole) e

in_range : (gs : List ℕ) (i : ℕ) → i < length gs → get_elem? gs i ≢ none
in_range [] i h e = elim h [ ]
in_range (g ∷ gs) zero h e = cc
in_range (g ∷ gs) (suc i) h e = in_range gs i (omega arith) e

here :
    (whole : List Slot) (i : ℕ)
    → some none ≡ get_elem? whole (i + 0)
    → some none ≡ get_elem? whole i
here whole i h = let e : i + 0 ≡ i = omega arith in rw e at h

free_slot-none :
    (ts : List Slot) (gs : List ℕ) (i g : ℕ)
    → get_elem? gs i ≡ some g
    → free_slot (none ∷ ts) gs i ≡ (if nat_eq g u32_max then free_slot ts gs (suc i) else found i)
unfolding free_slot
free_slot-none ts gs i g e = ground arith

free_slot-Search :
    (ts whole : List Slot) (gs : List ℕ) (i : ℕ)
    → Suffix ts whole i
    → i + length ts ≡ length gs
    → Search whole gs (free_slot ts gs i)
unfolding free_slot
free_slot-Search [] whole gs i h n = tt
free_slot-Search (some t ∷ ts) whole gs i h n =
    free_slot-Search ts whole gs (suc i) (Suffix-tail (some t) ts whole i h) (omega arith)
free_slot-Search (none ∷ ts) whole gs i h n =
    let rest = free_slot-Search ts whole gs (suc i) (Suffix-tail none ts whole i h) (omega arith) in
    elim (Option-cases (get_elem? gs i)) [
      | inl e ↦ absurd (in_range gs i (omega arith) e)
      | inr (g, e) ↦ elim (Bool-cases (nat_eq g u32_max)) [
        | inl top ↦ rw (free_slot-none ts gs i g e, top) rest
        | inr low ↦
            rw (free_slot-none ts gs i g e, low) (sym (here whole i (h 0)), (g, e, ground arith))
      ]
    ]

-- The new task, in a slot that was free or behind all others.
abbrev fresh_id : ℕ → ℕ → TaskId
fresh_id i g = record { index = i; generation = g }

find-occupy :
    (ts : List Slot) (i : ℕ) (id : TaskId) (t : TaskControlBlock) (j : TaskId)
    → get_elem? ts i ≡ some none
    → id.index ≡ i
    → t.id ≡ id
    → find (set ts i (some t)) j ≡ (if id == j then some t else find ts j)
unfolding find
find-occupy ts i id t j e k own = elim (Bool-cases (nat_eq i j.index)) [
  | inl same ↦
      let n : i ≡ j.index = (nat_eq_iff i j.index).0 same in
      rw (← n) (rw (get_elem?-set_self ts i (some t) (get_elem?-lt ts i e), e) (rw own))
  | inr other ↦
      rw (get_elem?-set_ne ts i j.index (some t) (ground arith))
        (ground (arith, task_id_eq_iff id j))
]

find-append :
    (ts : List Slot) (id : TaskId) (t : TaskControlBlock) (j : TaskId)
    → id.index ≡ length ts
    → t.id ≡ id
    → find (ts ++ some t ∷ []) j ≡ (if id == j then some t else find ts j)
unfolding find
find-append ts id t j k own = elim (Bool-cases (nat_eq id.index j.index)) [
  | inl same ↦
      let n : j.index ≡ length ts = ground arith in
      rw (get_elem?-append_last ts (some t) j.index n, get_elem?-ge ts j.index (omega arith))
        (rw own)
  | inr other ↦ elim (Bool-cases (leb j.index (length ts))) [
    | inl inside ↦
        rw (get_elem?-append_left ts (some t ∷ []) j.index (ground arith))
          (ground (arith, task_id_eq_iff id j))
    | inr outside ↦
        rw
          (
            get_elem?-ge (ts ++ some t ∷ []) j.index
                (ground (arith, length-append ts (some t ∷ []))),
            get_elem?-ge ts j.index (ground arith),
          )
          (ground (arith, task_id_eq_iff id j))
  ]
]

new_task_lem :
    (kind : TaskKind) (id : TaskId) (p : Priority)
    → ((new_task kind id p).id ≡ id) × ((new_task kind id p).state ≡ created)
unfolding new_task
new_task_lem kernel id p = (refl, refl)
new_task_lem userspace id p = (refl, refl)

-- A created task keeps the invariant, wherever it is put.
added-Inv :
    (s s' : Scheduler) (id : TaskId) (t : TaskControlBlock)
    → Inv s
    → Slots s'
    → s'.ready ≡ s.ready
    → s'.current ≡ s.current
    → task s id ≡ none
    → t.state ≡ created
    → ((j : TaskId) → task s' j ≡ (if id == j then some t else task s j))
    → Inv s'
added-Inv s s' id t v slots q c free new at = record {
  slots = slots;
  distinct = rw q v.distinct;
  queued = λ j. rw q (ground (arith, at j, v.queued j, task_id_eq_iff id j));
  only_current = λ j r. rw c (ground (arith, at j, v.only_current j));
  current_live = λ j k. ground (arith, at j, v.current_live j, task_id_eq_iff id j);
}

occupied-Slots :
    (s : Scheduler) (i g : ℕ) (t : TaskControlBlock)
    → Slots s
    → get_elem? s.tasks i ≡ some none
    → g ≤ u32_max
    → t.id ≡ fresh_id i g
    → Slots (record s { tasks = set s.tasks i (some t); generations = set s.generations i g })
occupied-Slots s i g t v free b own =
    let n : i < length s.tasks = get_elem?-lt s.tasks i free in
    let m : i < length s.generations = omega (arith, v.aligned) in
    record {
      aligned =
          omega (arith, length-set s.tasks i (some t), length-set s.generations i g, v.aligned);
      bounded = λ k h e. elim (Bool-cases (nat_eq i k)) [
        | inl same ↦ ground (arith, get_elem?-set_self s.generations i g m)
        | inr other ↦ v.bounded k h (rw (get_elem?-set_ne s.generations i k g (ground arith)) at e)
      ];
      owner = λ k u e. elim (Bool-cases (nat_eq i k)) [
        | inl same ↦
            ground (
              arith,
              get_elem?-set_self s.generations i g m,
              get_elem?-set_self s.tasks i (some t) n,
            )
        | inr other ↦
            let ne : i ≢ k = ground arith in
            rw (get_elem?-set_ne s.generations i k g ne)
              (v.owner k u (rw (get_elem?-set_ne s.tasks i k (some t) ne) at e))
      ];
    }

-- An element behind all others.
split_last :
    {A : Type 0} (xs : List A) (a b : A) (k : ℕ)
    → get_elem? (xs ++ a ∷ []) k ≡ some b
    → ((k < length xs) × (get_elem? xs k ≡ some b)) ⊎ ((k ≡ length xs) × (a ≡ b))
split_last [] a b zero e = ground arith
split_last [] a b (suc k) e = ground arith
split_last (x ∷ xs) a b zero e = inl (omega arith, e)
split_last (x ∷ xs) a b (suc k) e = elim (split_last xs a b k e) [
  | inl (n, h) ↦ inl (omega arith, h)
  | inr (n, h) ↦ inr (omega arith, h)
]

appended-Slots :
    (s : Scheduler) (t : TaskControlBlock)
    → Slots s
    → t.id ≡ fresh_id (length s.tasks) 1
    → Slots (record s { tasks = s.tasks ++ some t ∷ []; generations = s.generations ++ 1 ∷ [] })
appended-Slots s t v own = record {
  aligned =
      omega (
        arith,
        length-append s.tasks (some t ∷ []),
        length-append s.generations (1 ∷ []),
        v.aligned,
      );
  bounded = λ k h e. elim (split_last s.generations 1 h k e) [
    | inl (n, f) ↦ v.bounded k h f
    | inr (n, f) ↦ omega arith
  ];
  owner = λ k u e. elim (split_last s.tasks (some t) (some u) k e) [
    | inl (n, f) ↦
        rw (get_elem?-append_left s.generations (1 ∷ []) k (omega (arith, v.aligned)))
          (v.owner k u f)
    | inr (n, f) ↦
        ground (arith, get_elem?-append_last s.generations 1 k (omega (arith, v.aligned)))
  ];
}
