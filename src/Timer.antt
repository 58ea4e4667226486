-- ===== src/Timer.antt =====
-- Time values, kernel/src/timer.rs. The clock source and the timer device are interfaces of the
-- architecture layer.
use x.Base.{ℕ, Option, none, some, nat_eq, saturating_add, if◌then◌else◌}

pub record MonotonicTime : Type 0 where
  pub as_nanos : ℕ

unfoldable pub from_nanos : ℕ → MonotonicTime
from_nanos nanos = record { as_nanos = nanos }

unfoldable pub add_nanos : MonotonicTime → ℕ → MonotonicTime
add_nanos t delta_nanos = record { as_nanos = saturating_add t.as_nanos delta_nanos }

pub record TimerInterval : Type 0 where
  pub interval_nanos : ℕ

unfoldable pub new_interval : ℕ → Option TimerInterval
new_interval nanos = if nat_eq nanos 0 then none else some (record { interval_nanos = nanos })

pub record TimerDeadline : Type 0 where
  pub time : MonotonicTime

unfoldable pub new_deadline : MonotonicTime → TimerDeadline
new_deadline time = record { time = time }
