-- ===== src/Syscall/Laws.antt =====
-- What each dispatcher does with each system call, and how the dispatchers agree.
use x.Base.{ℕ, ◌≡◌, ◌⊎◌, inl, inr, refl, Option, none, some, List, Result-cases, Result, ok, err}
use x.Abi.{Syscall, write, exit, yield}
use x.Memory.Mapping.{PageAccess}
use x.Memory.UserCopy.{UserReadError}
use x.Syscall.{
  SyscallRequest, SyscallDispatch, unknown_number, return, returned, SinkWrite,
  ProcessSyscallControl, syscall, exit_action, yield_action, dispatch_with_control_action,
  dispatch_with_memory, dispatch_with_memory_and_control_action, dispatch_terminate,
  dispatch_reschedule,
}

module _ {S C : Type 0} (access : ℕ → PageAccess) (backend : ℕ → ℕ → Result UserReadError (List ℕ))
    (sink : SinkWrite S) (control : ProcessSyscallControl C) where
  -- Where the combined dispatcher sends a call: what it does to the sink and the control object, and
  -- what it answers, by the dispatchers that know one of the two.
  abbrev pub Routes : Option Syscall → SyscallRequest → S → C → S × C × SyscallDispatch → Type 0
  Routes none r s c out = out ≡ (s, c, returned (err unknown_number))
  Routes (some write) r s c out =
      let (s', result) = dispatch_with_memory access backend sink r s in
      out ≡ (s', c, returned result)
  Routes (some exit) r s c out =
      let (c', d) = dispatch_with_control_action control r c in out ≡ (s, c', d)
  Routes (some yield) r s c out =
      let (c', d) = dispatch_with_control_action control r c in out ≡ (s, c', d)

  routes :
      (call : Option Syscall) (r : SyscallRequest) (s : S) (c : C)
      → syscall r ≡ call
      → Routes call r s c
          (dispatch_with_memory_and_control_action access backend sink control r s c)
  unfolding dispatch_with_memory_and_control_action dispatch_with_memory
      dispatch_with_control_action
  routes none r s c h = rw (h, dispatch_with_memory_and_control_action) refl
  routes (some write) r s c h =
      rw (h, dispatch_with_memory_and_control_action, dispatch_with_memory) refl
  routes (some exit) r s c h =
      rw (h, dispatch_with_memory_and_control_action, dispatch_with_control_action) refl
  routes (some yield) r s c h =
      rw (h, dispatch_with_memory_and_control_action, dispatch_with_control_action) refl

  -- The dispatcher for both kinds of call sends a write to the dispatcher with memory, and leaves the
  -- control object alone; it sends exit and yield to the dispatcher with control, and leaves the sink
  -- alone; any other number changes neither and is answered with UnknownNumber.
  pub dispatch_with_memory_and_control_action-Routes :
      (r : SyscallRequest) (s : S) (c : C)
      → Routes
          (syscall r)
          r
          s
          c
          (dispatch_with_memory_and_control_action access backend sink control r s c)
  dispatch_with_memory_and_control_action-Routes r s c = routes (syscall r) r s c refl

-- When the caller does not return to the same process.
abbrev pub Leaves :
    {C : Type 0} → ProcessSyscallControl C → SyscallRequest → C → SyscallDispatch → Type 0
Leaves control r c d =
    (d.action ≡ return)
    ⊎ (((d ≡ dispatch_terminate 0)
          × (syscall r ≡ some exit)
          × ((control.on_exit c r.arg0).1 ≡ ok tt))
        ⊎ ((d ≡ dispatch_reschedule 0)
            × (syscall r ≡ some yield)
            × ((control.on_yield c).1 ≡ ok tt)))

module _ {C : Type 0} (control : ProcessSyscallControl C) where
  exit_action-Leaves :
      (r : SyscallRequest) (c : C)
      → syscall r ≡ some exit
      → Leaves control r c (exit_action control r.arg0 c).1
  unfolding exit_action
  exit_action-Leaves r c h = elim (Result-cases (control.on_exit c r.arg0).1) [
    | inl (u, e) ↦ inr (inl (rw (e, exit_action) refl, h, e))
    | inr (x, e) ↦ inl (rw (e, exit_action) refl)
  ]

  yield_action-Leaves :
      (r : SyscallRequest) (c : C)
      → syscall r ≡ some yield
      → Leaves control r c (yield_action control c).1
  unfolding yield_action
  yield_action-Leaves r c h = elim (Result-cases (control.on_yield c).1) [
    | inl (u, e) ↦ inr (inr (rw (e, yield_action) refl, h, e))
    | inr (x, e) ↦ inl (rw (e, yield_action) refl)
  ]

  leaves :
      (call : Option Syscall) (r : SyscallRequest) (c : C)
      → syscall r ≡ call
      → Leaves control r c (dispatch_with_control_action control r c).1
  unfolding dispatch_with_control_action
  leaves none r c h = inl (rw (h, dispatch_with_control_action) refl)
  leaves (some write) r c h = inl (rw (h, dispatch_with_control_action) refl)
  leaves (some exit) r c h =
      rw (h, dispatch_with_control_action) (rw h at (exit_action-Leaves r c h))
  leaves (some yield) r c h =
      rw (h, dispatch_with_control_action) (rw h at (yield_action-Leaves r c h))

  -- A call ends the process only if it is an exit that the control object accepted, and gives up the
  -- processor only if it is a yield that the control object accepted; else the caller returns.
  pub dispatch_with_control_action-Leaves :
      (r : SyscallRequest) (c : C) → Leaves control r c (dispatch_with_control_action control r c).1
  dispatch_with_control_action-Leaves r c = leaves (syscall r) r c refl
