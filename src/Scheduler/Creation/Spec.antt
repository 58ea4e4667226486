-- ===== src/Scheduler/Creation/Spec.antt =====
-- `create_task_with_kind` against its specification.
use x.Base.{
  ℕ, ◌+◌, ◌%◌, ◌^◌, ◌≤◌, ◌<◌, ◌≡◌, ◌∙◌, refl, ap, Option, none, some, List, [], ◌∷◌, ◌++◌, ◌==◌,
  if◌then◌else◌, arith, length, get_elem?, set, le→leb, u32_max, get_elem?-lt, get_elem?-ge,
  get_elem?-set_self, get_elem?-append_last, get_elem?-append_left, get_elem?-set_ne, nat_eq,
  nat_eq_iff, Bool-cases, inl, inr,
}
use x.Scheduler.Task.{TaskId, TaskId_Eq, TaskKind, Priority}
use x.Scheduler.State.{
  Scheduler, find, task, SlotSearch, found, not_found, out_of_bounds, free_slot, new_task, occupy,
  create_task_with_kind,
}
use x.Scheduler.Invariant.{Inv}
use x.Scheduler.Creation.{
  Search, free_slot-Search, fresh_id, find-occupy, find-append, new_task_lem, added-Inv,
  occupied-Slots, appended-Slots,
}

-- The generation of a new identity is above the one recorded for its slot, if there was one.
abbrev pub Newer : TaskId → Option ℕ → Type 0
Newer id none = Unit {0}
Newer id (some g) = g < id.generation

-- No recorded generation falls.
abbrev pub Grows : Scheduler → Scheduler → Type 0
Grows s s' =
    (k g : ℕ)
    → get_elem? s.generations k ≡ some g
    → (g' : ℕ) × (get_elem? s'.generations k ≡ some g') × (g ≤ g')

-- A scheduler with a task more.
abbrev pub Creates : Scheduler → Priority → TaskKind → Option (Scheduler × TaskId) → Type 0
Creates s p kind r =
    (s' : Scheduler) × (id : TaskId) × (r ≡ some (s', id))
    × (task s id ≡ none)
    × Newer id (get_elem? s.generations id.index)
    × (get_elem? s'.generations id.index ≡ some id.generation)
    × ((j : TaskId) → task s' j ≡ (if id == j then some (new_task kind id p) else task s j))
    × (s'.ready ≡ s.ready)
    × (s'.current ≡ s.current)
    × Grows s s'
    × Inv s'

small : (i : ℕ) → i ≤ u32_max → i % 2 ^ 32 ≡ i
small i h = omega arith

absent : (s : Scheduler) (id : TaskId) → get_elem? s.tasks id.index ≡ some none → task s id ≡ none
unfolding find
absent s id e = rw e

beyond : (s : Scheduler) (id : TaskId) → length s.tasks ≤ id.index → task s id ≡ none
unfolding find
beyond s id h = rw (get_elem?-ge s.tasks id.index h)

set_grows :
    (gs : List ℕ) (i h : ℕ)
    → get_elem? gs i ≡ some h
    → (k g : ℕ) → get_elem? gs k ≡ some g
    → (g' : ℕ) × (get_elem? (set gs i (h + 1)) k ≡ some g') × (g ≤ g')
set_grows gs i h e k g f = elim (Bool-cases (nat_eq i k)) [
  | inl same ↦
      let n : i ≡ k = (nat_eq_iff i k).0 same in
      (h + 1, rw (← n) (get_elem?-set_self gs i (h + 1) (get_elem?-lt gs i e)), ground arith)
  | inr other ↦ (g, get_elem?-set_ne gs i k (h + 1) (ground arith) ∙ f, omega arith)
]

occupy-Creates :
    (s : Scheduler) (p : Priority) (kind : TaskKind) (i g : ℕ)
    → Inv s
    → length s.tasks ≤ u32_max
    → get_elem? s.tasks i ≡ some none
    → get_elem? s.generations i ≡ some g
    → g < u32_max
    → Creates s p kind (occupy s p kind i (some g))
occupy-Creates s p kind i g v small_table free e low =
    let n : i < length s.tasks = get_elem?-lt s.tasks i free in
    let k : i % 2 ^ 32 ≡ i = small i (omega arith) in
    let id = fresh_id i (g + 1) in
    let t = new_task kind id p in
    let own = new_task_lem kind id p in
    let at = λ (j : TaskId). find-occupy s.tasks i id t j free refl own.0 in
    let s' : Scheduler = record s {
      tasks = set s.tasks i (some t);
      generations = set s.generations i (g + 1);
    } in
    rw (k, le→leb (g + 1) u32_max (omega arith))
      (
        s',
        id,
        refl,
        absent s id free,
        rw e (omega arith),
        get_elem?-set_self s.generations i (g + 1) (get_elem?-lt s.generations i e),
        at,
        refl,
        refl,
        set_grows s.generations i g e,
        added-Inv s s' id t v (occupied-Slots s i (g + 1) t v.slots free (omega arith) own.0) refl
            refl (absent s id free) own.1 at,
      )

append-Creates :
    (s : Scheduler) (p : Priority) (kind : TaskKind)
    → Inv s
    → length s.tasks ≤ u32_max
    → let id = fresh_id (length s.tasks) 1 in
      Creates s p kind (
        some (
          record s {
            tasks = s.tasks ++ some (new_task kind id p) ∷ [];
            generations = s.generations ++ 1 ∷ [];
          },
          id,
        ))
append-Creates s p kind v small_table =
    let id = fresh_id (length s.tasks) 1 in
    let t = new_task kind id p in
    let own = new_task_lem kind id p in
    let at = λ (j : TaskId). find-append s.tasks id t j refl own.0 in
    let s' : Scheduler = record s {
      tasks = s.tasks ++ some t ∷ [];
      generations = s.generations ++ 1 ∷ [];
    } in
    (
      s',
      id,
      refl,
      beyond s id (omega arith),
      rw (get_elem?-ge s.generations (length s.tasks) (omega (arith, v.slots.aligned))) tt,
      get_elem?-append_last s.generations 1 (length s.tasks) v.slots.aligned,
      at,
      refl,
      refl,
      λ k g e. (
        g,
        get_elem?-append_left s.generations (1 ∷ []) k (get_elem?-lt s.generations k e) ∙ e,
        omega arith,
      ),
      added-Inv s s' id t v (appended-Slots s t v.slots own.0) refl refl (beyond s id (omega arith))
          own.1 at,
    )

abbrev outcome : Scheduler → Priority → TaskKind → SlotSearch → Option (Scheduler × TaskId)
outcome s p kind out_of_bounds = none
outcome s p kind (found i) = occupy s p kind i (get_elem? s.generations i)
outcome s p kind not_found =
    let id : TaskId = record { index = length s.tasks % 2 ^ 32; generation = 1 } in
    some (
      record s {
        tasks = s.tasks ++ some (new_task kind id p) ∷ [];
        generations = s.generations ++ 1 ∷ [];
      },
      id,
    )

outcome-Creates :
    (s : Scheduler) (p : Priority) (kind : TaskKind) (r : SlotSearch)
    → Inv s
    → length s.tasks ≤ u32_max
    → Search s.tasks s.generations r
    → Creates s p kind (outcome s p kind r)
outcome-Creates s p kind out_of_bounds v b h = absurd h
outcome-Creates s p kind (found i) v b (free, (g, e, low)) =
    rw e (occupy-Creates s p kind i g v b free e (omega (arith, v.slots.bounded i g e)))
outcome-Creates s p kind not_found v b h =
    rw (small (length s.tasks) b) (append-Creates s p kind v b)

-- In a scheduler that satisfies the invariant, with fewer than 2^32 slots, task creation does not
-- panic. The new identity names no task yet, and is of a later generation than any that its slot
-- had; then it names the new task, every other identity finds what it found, the ready queue and the
-- current task are as they were, no recorded generation falls, and the invariant holds.
pub create_task_with_kind-Creates :
    (s : Scheduler) (p : Priority) (kind : TaskKind)
    → Inv s
    → length s.tasks ≤ u32_max
    → Creates s p kind (create_task_with_kind s p kind)
unfolding create_task_with_kind
create_task_with_kind-Creates s p kind v b =
    outcome-Creates s p kind (free_slot s.tasks s.generations 0) v b (
      free_slot-Search s.tasks s.tasks s.generations 0 (λ k. ap (get_elem? s.tasks) (omega arith))
        (omega (arith, v.slots.aligned)))
