-- ===== src/Process/Manager/Slots.antt =====
-- What the slots of the process registry hold, and what a write to one of them changes.
use x.Base.{
  ℕ, ◌≤◌, ◌<◌, ◌≡◌, refl, subst, ◌∙◌, true, false, Option, none, some, length, get_elem?, is_some,
  u32_max, arith, nat_eq, nat_eq_iff, Bool-cases, inl, inr, length-set, get_elem?-lt,
  get_elem?-set_self, get_elem?-set_ne, ok, if◌then◌else◌,
}
use x.Process.Identity.{ProcessId, ProcessExecutionBinding, running, exited}
use x.Process.Image.{ProcessImage}
use x.Process.Manager.{ProcessManager, Slot, has_state, emptied, occupant, slot, put, max_processes}

-- A slot of the registry at its index: it has an image when it has a state, an exit code when the
-- process has exited, and a binding while the process runs; a binding names the process of the
-- slot, its own task and the address space of the image.
pub record IsGood (i : ℕ) (s : Slot) : Type 0 where
  pub bounded : s.generation ≤ u32_max
  pub imaged : is_some s.image ≡ is_some s.state
  pub coded : is_some s.exit_code ≡ has_state s exited
  pub bound : has_state s running ≡ true → is_some s.binding ≡ true
  pub owned : is_some s.state ≡ false → is_some s.binding ≡ false
  pub process :
      (b : ProcessExecutionBinding)
      → s.binding ≡ some b
      → (b.process.index ≡ i) × (b.process.generation ≡ s.generation)
  pub task : (b : ProcessExecutionBinding) → s.binding ≡ some b → b.execution.task_id ≡ b.task
  pub space :
      (b : ProcessExecutionBinding) (p : ProcessImage)
      → s.binding ≡ some b
      → s.image ≡ some p
      → p.address_space.id ≡ b.address_space

pub record IsValid (m : ProcessManager) : Type 0 where
  pub size : length m.slots ≡ max_processes
  pub hint : m.next_hint < max_processes
  pub good : (i : ℕ) (s : Slot) → get_elem? m.slots i ≡ some s → IsGood i s

pub emptied-IsGood : (i g : ℕ) → g ≤ u32_max → IsGood i (emptied g)
unfolding is_some
emptied-IsGood i g h = record {
  bounded = h;
  imaged = ground arith;
  coded = ground arith;
  bound = λ e. ground arith;
  owned = λ e. ground arith;
  process = λ b e. ground arith;
  task = λ b e. ground arith;
  space = λ b p e f. ground arith;
}

pub get_elem?-put :
    (m : ProcessManager) (i j : ℕ) (s : Slot)
    → i < length m.slots
    → get_elem? (put m i s).slots j ≡ (if nat_eq i j then some s else get_elem? m.slots j)
unfolding put
get_elem?-put m i j s b = elim (Bool-cases (nat_eq i j)) [
  | inl same ↦
      let e : i ≡ j = (nat_eq_iff i j).0 same in ground (arith, get_elem?-set_self m.slots i s b)
  | inr other ↦ rw (get_elem?-set_ne m.slots i j s (ground arith), other) refl
]

pub put-IsValid :
    (m : ProcessManager) (i : ℕ) (s : Slot)
    → i < max_processes
    → IsGood i s
    → IsValid m
    → IsValid (put m i s)
unfolding put
put-IsValid m i s b g v = record {
  size = length-set m.slots i s ∙ v.size;
  hint = v.hint;
  good = λ j u e. elim (Bool-cases (nat_eq i j)) [
    | inl same ↦
        let k : i ≡ j = (nat_eq_iff i j).0 same in
        let w : s ≡ u = ground (arith, get_elem?-put m i j s (omega (arith, v.size))) in
        subst (λ x. IsGood j x) w (subst (λ x. IsGood x s) k g)
    | inr other ↦ v.good j u (ground (arith, get_elem?-put m i j s (omega (arith, v.size))))
  ];
}

pub hinted-IsValid :
    (m : ProcessManager) (h : ℕ)
    → h < max_processes
    → IsValid m
    → IsValid (record m { next_hint = h })
hinted-IsValid m h b v = record { size = v.size; hint = b; good = v.good }

occupant-ok :
    (id : ProcessId) (o : Option Slot) (s : Slot)
    → occupant id o ≡ ok s
    → (o ≡ some s) × (s.generation ≡ id.generation) × (is_some s.state ≡ true)
occupant-ok id none s h = ground arith
occupant-ok id (some t) s h = ground arith

-- A slot that is found is at the index of the identity, of its generation, and occupied.
pub slot-ok :
    (m : ProcessManager) (id : ProcessId) (s : Slot)
    → slot m id ≡ ok s
    → (get_elem? m.slots id.index ≡ some s)
      × (s.generation ≡ id.generation)
      × (is_some s.state ≡ true)
unfolding slot
slot-ok m id s h = occupant-ok id (get_elem? m.slots id.index) s h

pub slot-index :
    (m : ProcessManager) (id : ProcessId) (s : Slot)
    → IsValid m
    → slot m id ≡ ok s
    → id.index < max_processes
slot-index m id s v h = omega (arith, get_elem?-lt m.slots id.index (slot-ok m id s h).0, v.size)

-- What becomes of a slot: its generation never falls, and a slot that is free is not occupied again
-- at the same generation.
pub record Aged (s t : Slot) : Type 0 where
  pub grows : s.generation ≤ t.generation
  pub freed : s.generation ≡ t.generation → is_some s.state ≡ false → is_some t.state ≡ false

abbrev pub Later : ProcessManager → ProcessManager → Type 0
Later m n =
    (i : ℕ) (s : Slot)
    → get_elem? m.slots i ≡ some s
    → (t : Slot) × (get_elem? n.slots i ≡ some t) × Aged s t

-- What every operation does to the registry.
pub record Keeps (m n : ProcessManager) : Type 0 where
  pub valid : IsValid n
  pub later : Later m n

pub Keeps-refl : (m : ProcessManager) → IsValid m → Keeps m m
Keeps-refl m v = record {
  valid = v;
  later = λ i s e. (s, e, record { grows = omega arith; freed = λ g h. h });
}

pub Keeps-trans : (m n k : ProcessManager) → Keeps m n → Keeps n k → Keeps m k
Keeps-trans m n k a b = record {
  valid = b.valid;
  later = λ i s e.
      let (t, f, x) = a.later i s e in
      let (u, g, y) = b.later i t f in
      (
        u,
        g,
        record {
          grows = omega (arith, x.grows, y.grows);
          freed = λ p q.
              y.freed (omega (arith, x.grows, y.grows))
                (x.freed (omega (arith, x.grows, y.grows)) q);
        },
      );
}

pub put-Keeps :
    (m : ProcessManager) (i : ℕ) (s t : Slot)
    → get_elem? m.slots i ≡ some s
    → IsGood i t
    → Aged s t
    → IsValid m
    → Keeps m (put m i t)
put-Keeps m i s t e g a v =
    let b : i < length m.slots = get_elem?-lt m.slots i e in
    record {
      valid = put-IsValid m i t (omega (arith, v.size)) g v;
      later = λ j u f. elim (Bool-cases (nat_eq i j)) [
        | inl same ↦
            let k : i ≡ j = (nat_eq_iff i j).0 same in
            let w : s ≡ u = ground arith in
            (t, ground (arith, get_elem?-put m i j t b), subst (λ x. Aged x t) w a)
        | inr other ↦ (
          u,
          ground (arith, get_elem?-put m i j t b),
          record { grows = omega arith; freed = λ p q. q },
        )
      ];
    }

pub hinted-Keeps :
    (m n : ProcessManager) (h : ℕ)
    → h < max_processes
    → Keeps m n
    → Keeps m (record n { next_hint = h })
hinted-Keeps m n h b k = record { valid = hinted-IsValid n h b k.valid; later = k.later }
