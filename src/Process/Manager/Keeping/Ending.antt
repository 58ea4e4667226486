-- ===== src/Process/Manager/Keeping/Ending.antt =====
-- The operations that start, end and free a process keep the registry valid.
use x.Base.{ℕ, ◌≡◌, refl, true, ◌||◌, some, is_some, arith, Bool-cases, Result-cases, inl, inr}
use x.Process.Identity.{ProcessId, ProcessState, running, exited, ready}
use x.Process.Manager.{ProcessManager, Slot, has_state, slot}
use x.Process.Manager.Ops.{start, request_exit, reap, reapable, abort_ready}
use x.Process.Manager.Slots.{
  IsGood, IsValid, Aged, Keeps, Keeps-refl, put-Keeps, hinted-Keeps, slot-ok, slot-index,
}
use x.Process.Manager.Keeping.{found, removed-Keeps, remove-Keeps}

pub started-IsGood :
    (i : ℕ) (s : Slot)
    → has_state s ready ≡ true
    → is_some s.binding ≡ true
    → IsGood i s
    → IsGood i (record s { state = some running })
unfolding is_some
started-IsGood i s r b v = record {
  bounded = v.bounded;
  imaged = ground (arith, v.imaged);
  coded = ground (arith, v.coded);
  bound = λ e. b;
  owned = λ e. absurd (ground arith);
  process = v.process;
  task = v.task;
  space = v.space;
}

pub started-Aged :
    (s : Slot) (st : ProcessState) → is_some s.state ≡ true → Aged s (record s { state = some st })
unfolding is_some
started-Aged s st h = record { grows = omega arith; freed = λ p q. absurd (ground arith) }

pub start-Keeps : (m : ProcessManager) (id : ProcessId) → IsValid m → Keeps m (start m id).0
unfolding start
start-Keeps m id v = elim (Result-cases (slot m id)) [
  | inr (e, h) ↦ rw (h, start) (Keeps-refl m v)
  | inl (s, h) ↦
      rw (h, start)
        (elim (Bool-cases (has_state s ready)) [
          | inr r ↦ rw r (Keeps-refl m v)
          | inl r ↦ rw r (elim (Bool-cases (is_some s.binding)) [
            | inr b ↦ rw b (Keeps-refl m v)
            | inl b ↦
                let (at, _, o) = slot-ok m id s h in
                rw b (
                  put-Keeps m id.index s _ at (started-IsGood id.index s r b (found m id s v h))
                    (started-Aged s running o) v)
          ])
        ])
]

exited-IsGood :
    (i : ℕ) (s : Slot) (code : ℕ)
    → is_some s.state ≡ true
    → IsGood i s
    → IsGood i (record s { state = some exited; exit_code = some code })
unfolding is_some
exited-IsGood i s code o v = record {
  bounded = v.bounded;
  imaged = ground (arith, v.imaged);
  coded = refl;
  bound = λ e. absurd (ground arith);
  owned = λ e. absurd (ground arith);
  process = v.process;
  task = v.task;
  space = v.space;
}

pub request_exit-Keeps :
    (m : ProcessManager) (id : ProcessId) (code : ℕ)
    → IsValid m
    → Keeps m (request_exit m id code).0
unfolding request_exit
request_exit-Keeps m id code v = elim (Result-cases (slot m id)) [
  | inr (e, h) ↦ rw (h, request_exit) (Keeps-refl m v)
  | inl (s, h) ↦
      rw (h, request_exit)
        (elim (Bool-cases (has_state s ready || has_state s running)) [
          | inr r ↦ rw r (Keeps-refl m v)
          | inl r ↦
              let (at, _, o) = slot-ok m id s h in
              rw r (
                put-Keeps m id.index s _ at (exited-IsGood id.index s code o (found m id s v h))
                  (record { grows = omega arith; freed = λ p q. absurd (ground arith) }) v)
        ])
]

pub reap-Keeps : (m : ProcessManager) (id : ProcessId) → IsValid m → Keeps m (reap m id).0
unfolding reap
reap-Keeps m id v = elim (Result-cases (slot m id)) [
  | inr (e, h) ↦ rw (h, reap) (Keeps-refl m v)
  | inl (s, h) ↦
      rw (h, reap)
        (elim (Result-cases (reapable id s)) [
          | inr (e, k) ↦ rw k (Keeps-refl m v)
          | inl (r, k) ↦
              rw k (hinted-Keeps m _ id.index (slot-index m id s v h) (removed-Keeps m id s h v))
        ])
]

pub abort-Keeps : (m : ProcessManager) (id : ProcessId) → IsValid m → Keeps m (abort_ready m id).0
unfolding abort_ready
abort-Keeps m id v = elim (Result-cases (slot m id)) [
  | inr (e, h) ↦ rw (h, abort_ready) (Keeps-refl m v)
  | inl (s, h) ↦
      rw (h, abort_ready)
        (elim (Bool-cases (has_state s ready)) [
          | inr r ↦ rw r (Keeps-refl m v)
          | inl r ↦ rw r (remove-Keeps m id v)
        ])
]
