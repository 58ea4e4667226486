-- ===== src/Arch/Slots.antt =====
-- The entries of the two execution registries, `Vec<Option<_>>`: kernel/src/arch/x86_64/execution_registry.rs
-- and kernel/src/arch/x86_64/user_execution.rs. The operations are those of both, on bindings that
-- name their task.
use x.Base.{
  ℕ, suc, ◌≡◌, refl, true, Option, none, some, List, [], ◌∷◌, ◌==◌, if◌then◌else◌, arith,
  Bool-cases, inl, inr,
}
use x.Scheduler.Task.{TaskId, TaskId_Eq, task_id_eq_iff}

module _ {B : Type 0} (task_of : B → TaskId) where
  -- `get`: the first entry that is bound to the task.
  unfoldable pub find_entry : List (Option B) → TaskId → Option B
  find_entry [] id = none
  find_entry (none ∷ es) id = find_entry es id
  find_entry (some b ∷ es) id =
      let rest = find_entry es id in if task_of b == id then some b else rest

  -- What is written through `get_mut`.
  unfoldable pub update_entry : List (Option B) → TaskId → B → List (Option B)
  update_entry [] id v = []
  update_entry (none ∷ es) id v = none ∷ update_entry es id v
  update_entry (some b ∷ es) id v =
      let rest = update_entry es id v in if task_of b == id then some v ∷ es else some b ∷ rest

  -- `*slot = None` on the first entry that is bound to the task.
  unfoldable pub vacate : List (Option B) → TaskId → List (Option B)
  vacate [] id = []
  vacate (none ∷ es) id = none ∷ vacate es id
  vacate (some b ∷ es) id =
      let rest = vacate es id in if task_of b == id then none ∷ es else some b ∷ rest

  -- The binding goes to the first empty entry, or to a new one at the end.
  unfoldable pub fill : List (Option B) → B → List (Option B)
  fill [] b = some b ∷ []
  fill (none ∷ es) b = some b ∷ es
  fill (some a ∷ es) b = some a ∷ fill es b

  unfoldable pub count_entries : List (Option B) → ℕ
  count_entries [] = 0
  count_entries (none ∷ es) = count_entries es
  count_entries (some b ∷ es) = suc (count_entries es)

  unfoldable pub index_of : List (Option B) → TaskId → Option ℕ
  index_of [] id = none
  index_of (none ∷ es) id = elim (index_of es id) [ none ↦ none | some i ↦ some (suc i) ]
  index_of (some b ∷ es) id =
      let rest = index_of es id in
      if task_of b == id then some 0 else elim rest [ none ↦ none | some i ↦ some (suc i) ]

  -- At most one entry is bound to each task.
  abbrev pub Unique : List (Option B) → Type 0
  Unique [] = Unit {0}
  Unique (none ∷ es) = Unique es
  Unique (some b ∷ es) = (find_entry es (task_of b) ≡ none) × Unique es

  self : (id : TaskId) → (id == id) ≡ true
  self id = (task_id_eq_iff id id).1 refl

  pub find_entry-fill :
      (es : List (Option B)) (b : B) (id : TaskId)
      → find_entry es (task_of b) ≡ none
      → find_entry (fill es b) id ≡ (if task_of b == id then some b else find_entry es id)
  unfolding find_entry fill
  find_entry-fill [] b id h = refl
  find_entry-fill (none ∷ es) b id h = refl
  find_entry-fill (some a ∷ es) b id h = ground (
    arith,
    find_entry-fill es b id,
    task_id_eq_iff (task_of a) id,
    task_id_eq_iff (task_of b) id,
    task_id_eq_iff (task_of a) (task_of b),
  )

  pub Unique-fill :
      (es : List (Option B)) (b : B)
      → find_entry es (task_of b) ≡ none
      → Unique es
      → Unique (fill es b)
  unfolding find_entry fill
  Unique-fill [] b h u = (refl, tt)
  Unique-fill (none ∷ es) b h u = (h, u)
  Unique-fill (some a ∷ es) b h (fresh, u) = elim (Bool-cases (task_of a == task_of b)) [
    | inl same ↦ absurd (ground arith)
    | inr other ↦
        let below : find_entry es (task_of b) ≡ none = ground arith in
        (
          ground (
            arith,
            find_entry-fill es b (task_of a) below,
            task_id_eq_iff (task_of a) (task_of b),
            task_id_eq_iff (task_of b) (task_of a),
          ),
          Unique-fill es b below u,
        )
  ]

  pub find_entry-vacate :
      (es : List (Option B)) (gone id : TaskId)
      → Unique es
      → find_entry (vacate es gone) id ≡ (if gone == id then none else find_entry es id)
  unfolding find_entry vacate
  find_entry-vacate [] gone id u = ground arith
  find_entry-vacate (none ∷ es) gone id u = find_entry-vacate es gone id u
  find_entry-vacate (some b ∷ es) gone id (fresh, u) = elim (Bool-cases (task_of b == gone)) [
    | inl same ↦ ground (
      arith,
      task_id_eq_iff (task_of b) gone,
      task_id_eq_iff gone id,
      task_id_eq_iff (task_of b) id,
    )
    | inr other ↦ ground (
      arith,
      find_entry-vacate es gone id u,
      task_id_eq_iff (task_of b) gone,
      task_id_eq_iff gone id,
      task_id_eq_iff (task_of b) id,
    )
  ]

  pub Unique-vacate : (es : List (Option B)) (gone : TaskId) → Unique es → Unique (vacate es gone)
  unfolding find_entry vacate
  Unique-vacate [] gone u = u
  Unique-vacate (none ∷ es) gone u = Unique-vacate es gone u
  Unique-vacate (some b ∷ es) gone (fresh, u) = elim (Bool-cases (task_of b == gone)) [
    | inl same ↦ rw same u
    | inr other ↦
        rw other (ground (arith, find_entry-vacate es gone (task_of b) u), Unique-vacate es gone u)
  ]

  -- What is found for a task is bound to it.
  pub find_entry-task :
      (es : List (Option B)) (id : TaskId) {b : B} → find_entry es id ≡ some b → task_of b ≡ id
  unfolding find_entry
  find_entry-task [] id h = absurd (ground arith)
  find_entry-task (none ∷ es) id h = find_entry-task es id h
  find_entry-task (some a ∷ es) id {b} h = elim (Bool-cases (task_of a == id)) [
    | inl same ↦ let e : a ≡ b = ground arith in rw (← e) ((task_id_eq_iff (task_of a) id).0 same)
    | inr other ↦ find_entry-task es id (rw other at h)
  ]
