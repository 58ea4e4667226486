-- ===== src/Process/Manager/Yield.antt =====
-- What `yield_to` of kernel/src/process/manager.rs changes, and that it keeps the registry valid.
pub mod Effect
use x.Base.{
  ℕ, ◌<◌, ◌≡◌, ◌≢◌, refl, true, false, some, length, get_elem?, get_elem?-lt, is_some, arith,
  nat_eq, Bool-cases, Option-cases, Result-cases, inl, inr, ok, err, if◌then◌else◌, ◌==◌, ◌⊎◌,
}
use x.Process.Identity.{
  ProcessId, ProcessId_Eq, process_id_eq_iff, process_state_eq_iff, ProcessState, running, ready,
}
use x.Process.Manager.{
  ProcessManager, ProcessManagerError, Slot, has_state, slot, put, invalid_transition,
}
use x.Process.Manager.Ops.{yield_to, yieldable, hand_over, state}
use x.Process.Manager.Slots.{
  IsGood, IsValid, Keeps, Keeps-refl, Keeps-trans, put-Keeps, slot-ok, get_elem?-put,
}
use x.Process.Manager.Keeping.{found}
use x.Process.Manager.Keeping.Ending.{started-IsGood, started-Aged}

-- The registry after a yield from a process in the slot `c` to a process in the slot `s`.
abbrev pub yielded : ProcessManager → ProcessId → Slot → ProcessId → Slot → ProcessManager
yielded m current c successor s =
    put (put m current.index (record c { state = some ready })) successor.index
      (record s { state = some running })

-- Two processes that are both registered are in different slots.
apart :
    (m : ProcessManager) (a b : ProcessId) (c s : Slot)
    → (a == b) ≡ false
    → slot m a ≡ ok c
    → slot m b ≡ ok s
    → a.index ≢ b.index
apart m a b c s ne h k e =
    let (at, g, _) = slot-ok m a c h in
    let (bt, f, _) = slot-ok m b s k in
    let same : c ≡ s = ground arith in absurd (ground (arith, process_id_eq_iff a b))

pub yieldable-ok :
    (c s : Slot)
    → yieldable c s ≡ ok tt
    → (has_state c running ≡ true)
      × (has_state s ready ≡ true)
      × (is_some c.binding ≡ true)
      × (is_some s.binding ≡ true)
unfolding yieldable
yieldable-ok c s h = ground arith

hand_over_lem :
    (m : ProcessManager) (current successor : ProcessId) (c s : Slot)
    → current.index ≢ successor.index
    → current.index < length m.slots
    → get_elem? m.slots successor.index ≡ some s
    → has_state s ready ≡ true
    → hand_over m current successor c ≡ (yielded m current c successor s, ok tt)
unfolding hand_over
hand_over_lem m current successor c s ne b at r =
    let e : get_elem? (put m current.index (record c { state = some ready })).slots successor.index
        ≡ some s =
      ground (
        arith,
        get_elem?-put m current.index successor.index (record c { state = some ready }) b,
      ) in
    rw (e, hand_over) (rw r refl)

ready-IsGood :
    (i : ℕ) (s : Slot)
    → has_state s running ≡ true
    → is_some s.binding ≡ true
    → IsGood i s
    → IsGood i (record s { state = some ready })
unfolding is_some
ready-IsGood i s r b v = record {
  bounded = v.bounded;
  imaged = ground (arith, v.imaged);
  coded = ground (arith, v.coded);
  bound = λ e. b;
  owned = λ e. absurd (ground arith);
  process = v.process;
  task = v.task;
  space = v.space;
}

-- A yield either is refused, and changes nothing, or passes the checks and makes both writes.
pub yield_to-cases :
    (m : ProcessManager) (current successor : ProcessId)
    → ((e : ProcessManagerError) × (yield_to m current successor ≡ (m, err e)))
      ⊎ ((c : Slot) × (s : Slot) × (slot m current ≡ ok c)
          × (slot m successor ≡ ok s)
          × (yieldable c s ≡ ok tt)
          × (current.index ≢ successor.index)
          × (yield_to m current successor ≡ (yielded m current c successor s, ok tt)))
unfolding yield_to
yield_to-cases m current successor = elim (Bool-cases (current == successor)) [
  | inl e ↦ inl (invalid_transition, rw (e, yield_to) refl)
  | inr e ↦ elim (Result-cases (slot m current)) [
    | inr (x, h) ↦ inl (x, rw (e, h, yield_to) refl)
    | inl (c, h) ↦ elim (Result-cases (slot m successor)) [
      | inr (x, k) ↦ inl (x, rw (e, h, k, yield_to) refl)
      | inl (s, k) ↦ elim (Result-cases (yieldable c s)) [
        | inr (x, y) ↦ inl (x, rw (e, h, k, y, yield_to) refl)
        | inl (u, y) ↦
            let ne = apart m current successor c s e h k in
            let (_, rdy, _, _) = yieldable-ok c s y in
            inr (
              c,
              s,
              h,
              k,
              y,
              ne,
              rw (e, h, k, y, yield_to)
                  (hand_over_lem m current successor c s ne
                    (get_elem?-lt m.slots current.index (slot-ok m current c h).0)
                    (slot-ok m successor s k).0 rdy),
            )
      ]
    ]
  ]
]

yielded-Keeps :
    (m : ProcessManager) (current successor : ProcessId) (c s : Slot)
    → slot m current ≡ ok c
    → slot m successor ≡ ok s
    → yieldable c s ≡ ok tt
    → current.index ≢ successor.index
    → IsValid m
    → Keeps m (yielded m current c successor s)
yielded-Keeps m current successor c s h k y ne v =
    let (at, _, o) = slot-ok m current c h in
    let (bt, _, p) = slot-ok m successor s k in
    let (run, rdy, cb, sb) = yieldable-ok c s y in
    let first =
      put-Keeps m current.index c (record c { state = some ready }) at
        (ready-IsGood current.index c run cb (found m current c v h)) (started-Aged c ready o) v in
    Keeps-trans m _ _ first (
      put-Keeps _ successor.index s _
        (ground (
          arith,
          get_elem?-put m current.index successor.index (record c { state = some ready })
              (get_elem?-lt m.slots current.index at),
        ))
        (started-IsGood successor.index s rdy sb (found m successor s v k))
        (started-Aged s running p) first.valid)

pub yield_to-Keeps :
    (m : ProcessManager) (current successor : ProcessId)
    → IsValid m
    → Keeps m (yield_to m current successor).0
yield_to-Keeps m current successor v = elim (yield_to-cases m current successor) [
  | inl (e, h) ↦ rw h (Keeps-refl m v)
  | inr (c, s, h, k, y, ne, q) ↦ rw q (yielded-Keeps m current successor c s h k y ne v)
]
