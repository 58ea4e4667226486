-- ===== src/Process/Manager/Yield/Effect.antt =====
-- What a yield does to the two processes and to the others.
use x.Base.{
  ◌≡◌, ◌≢◌, refl, true, some, get_elem?-lt, is_some, arith, nat_eq, Bool-cases, Option-cases, inl,
  inr, ok, err, if◌then◌else◌, ◌==◌, ◌⊎◌,
}
use x.Process.Identity.{
  ProcessId, ProcessId_Eq, process_id_eq_iff, process_state_eq_iff, ProcessState, running, ready,
}
use x.Process.Manager.{ProcessManager, ProcessManagerError, Slot, has_state, slot, put}
use x.Process.Manager.Ops.{yield_to, yieldable, state}
use x.Process.Manager.Slots.{slot-ok, get_elem?-put}
use x.Process.Manager.Yield.{yielded, yieldable-ok, yield_to-cases}

-- What a yield that succeeds does: the running process becomes ready, the ready one runs, and no
-- other process changes its state.
pub record HandsOver (m n : ProcessManager) (current successor : ProcessId) : Type 0 where
  pub was_running : state m current ≡ ok running
  pub was_ready : state m successor ≡ ok ready
  pub now_ready : state n current ≡ ok ready
  pub now_running : state n successor ≡ ok running
  pub others : (id : ProcessId) → id ≢ current → id ≢ successor → state n id ≡ state m id

-- A write to the state of a process that is registered is seen by that process alone.
state-write :
    (m : ProcessManager) (a : ProcessId) (c : Slot) (st : ProcessState) (id : ProcessId)
    → slot m a ≡ ok c
    → state (put m a.index (record c { state = some st })) id
      ≡ (if a == id then ok st else state m id)
unfolding state slot is_some
state-write m a c st id h =
    let (at, g, o) = slot-ok m a c h in
    rw
      (get_elem?-put m a.index id.index (record c { state = some st })
        (get_elem?-lt m.slots a.index at))
      (elim (Bool-cases (nat_eq a.index id.index)) [
        | inr e ↦ ground (arith, process_id_eq_iff a id)
        | inl e ↦ ground (arith, process_id_eq_iff a id, at)
      ])

slot-write :
    (m : ProcessManager) (a b : ProcessId) (c s : Slot) (st : ProcessState)
    → slot m a ≡ ok c
    → slot m b ≡ ok s
    → a.index ≢ b.index
    → slot (put m a.index (record c { state = some st })) b ≡ ok s
unfolding slot
slot-write m a b c s st h k ne =
    rw
      (get_elem?-put m a.index b.index (record c { state = some st })
        (get_elem?-lt m.slots a.index (slot-ok m a c h).0))
      (ground arith)

state-has :
    (m : ProcessManager) (id : ProcessId) (s : Slot) (st : ProcessState)
    → slot m id ≡ ok s
    → has_state s st ≡ true
    → state m id ≡ ok st
unfolding state
state-has m id s st h e =
    rw (h, state)
      (elim (Option-cases s.state) [
        | inl n ↦ absurd (ground arith)
        | inr (t, n) ↦ rw n (ground (arith, process_state_eq_iff t st))
      ])

yielded-HandsOver :
    (m : ProcessManager) (current successor : ProcessId) (c s : Slot)
    → slot m current ≡ ok c
    → slot m successor ≡ ok s
    → yieldable c s ≡ ok tt
    → current.index ≢ successor.index
    → HandsOver m (yielded m current c successor s) current successor
yielded-HandsOver m current successor c s h k y ne =
    let (run, rdy, _, _) = yieldable-ok c s y in
    let k' = slot-write m current successor c s ready h k ne in
    let w = λ (id : ProcessId). state-write m current c ready id h in
    let z = λ (id : ProcessId).
      state-write (put m current.index (record c { state = some ready })) successor s running id
        k' in
    record {
      was_running = state-has m current c running h run;
      was_ready = state-has m successor s ready k rdy;
      now_ready = ground (
        arith,
        w current,
        z current,
        process_id_eq_iff current current,
        process_id_eq_iff successor current,
      );
      now_running = ground (arith, z successor, process_id_eq_iff successor successor);
      others = λ id p q.
          ground (arith, w id, z id, process_id_eq_iff current id, process_id_eq_iff successor id);
    }

-- A yield either returns an error and leaves the registry as it was, or makes the running process
-- ready and the ready one running, and changes the state of no other process.
pub yield_to-HandsOver :
    (m : ProcessManager) (current successor : ProcessId)
    → ((e : ProcessManagerError) × (yield_to m current successor ≡ (m, err e)))
      ⊎ (((yield_to m current successor).1 ≡ ok tt)
          × HandsOver m (yield_to m current successor).0 current successor)
yield_to-HandsOver m current successor = elim (yield_to-cases m current successor) [
  | inl r ↦ inl r
  | inr (c, s, h, k, y, ne, q) ↦
      inr (rw q (refl, yielded-HandsOver m current successor c s h k y ne))
]
