-- ===== src/Scheduler/Reschedule.antt =====
-- The reschedule request and the preemption gate, kernel/src/scheduler/reschedule.rs. The atomic
-- flag is a Boolean, as each access is one step; the guard's drop is `enable_one`.
use x.Base.{
  ℕ, zero, suc, ◌+◌, ◌-◌, ◌<◌, ◌≡◌, refl, Bool, true, false, nat_eq, saturating_add, u64_max, arith,
}

pub record RescheduleRequest : Type 0 where
  pub pending : Bool

unfoldable pub new_request : RescheduleRequest
new_request = record { pending = false }

unfoldable pub request : RescheduleRequest → RescheduleRequest
request r = record r { pending = true }

unfoldable pub take : RescheduleRequest → RescheduleRequest × Bool
take r = (record r { pending = false }, r.pending)

unfoldable pub is_pending : RescheduleRequest → Bool
is_pending r = r.pending

pub record PreemptionGate : Type 0 where
  pub disabled_depth : ℕ

unfoldable pub new_gate : PreemptionGate
new_gate = record { disabled_depth = 0 }

unfoldable pub disable : PreemptionGate → PreemptionGate
disable g = record g { disabled_depth = saturating_add g.disabled_depth 1 }

unfoldable pub is_enabled : PreemptionGate → Bool
is_enabled g = nat_eq g.disabled_depth 0

unfoldable pub depth : PreemptionGate → ℕ
depth g = g.disabled_depth

-- A guard is dropped only after its `disable`, so the depth is not 0.
unfoldable pub enable_one : PreemptionGate → PreemptionGate
enable_one g = record g { disabled_depth = g.disabled_depth - 1 }

-- `n` guards taken one inside the other, and then dropped.
unfoldable pub nested : ℕ → PreemptionGate → PreemptionGate
nested zero g = g
nested (suc n) g = enable_one (nested n (disable g))

-- Guards that are nested to a depth that a 64-bit counter can hold leave the gate as it was, and
-- while the first of them is held preemption is off.
pub nested-balanced :
    (n : ℕ) (g : PreemptionGate)
    → n + g.disabled_depth < u64_max
    → (nested n g ≡ g) × (is_enabled (disable g) ≡ false)
unfolding nested is_enabled disable enable_one
nested-balanced zero g h = (refl, ground arith)
nested-balanced (suc n) g h =
    let (same, _) = nested-balanced n (disable g) (ground arith) in (ground arith, ground arith)
