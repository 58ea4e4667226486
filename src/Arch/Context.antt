-- ===== src/Arch/Context.antt =====
-- The saved context of a kernel task and its bootstrap: kernel/src/arch/x86_64/context_switch.rs and
-- the activation record of kernel/src/arch/x86_64/activation.rs, with the address at which it stands.
use x.Base.{
  ℕ, ◌+◌, ◌-◌, ◌%◌, ◌≤◌, ◌≡◌, Bool, not, ◌&&◌, ◌||◌, Option, none, some, nat_eq, ltb, leb, true,
  false, refl, if◌then◌else◌, checked_add, checked_sub, arith,
}
use x.Scheduler.Task.{TaskId}

pub record Context : Type 0 where
  pub rsp : ℕ
  pub rbp : ℕ
  pub rbx : ℕ
  pub r12 : ℕ
  pub r13 : ℕ
  pub r14 : ℕ
  pub r15 : ℕ
  pub rip : ℕ

abbrev pub empty : Context
empty = record { rsp = 0; rbp = 0; rbx = 0; r12 = 0; r13 = 0; r14 = 0; r15 = 0; rip = 0 }

unfoldable pub is_initialized : Context → Bool
is_initialized c = not (nat_eq c.rsp 0) && not (nat_eq c.rip 0)

pub record ActivationRecord : Type 0 where
  pub task_id : TaskId
  pub entry : ℕ
  pub pointer : ℕ

-- `trampoline` is the address of the entry trampoline.
unfoldable pub bootstrap_context : ℕ → ActivationRecord → ℕ → Option Context
bootstrap_context stack_top activation trampoline = elim (checked_sub stack_top 8) [
  | none ↦ none
  | some below ↦ elim (checked_add (below - below % 16) 8) [
    | none ↦ none
    | some entry_rsp ↦
        if nat_eq entry_rsp 0 || ltb stack_top entry_rsp || not (nat_eq (entry_rsp % 16) 8)
        then none
        else some (record {
          rsp = entry_rsp;
          rbp = 0;
          rbx = 0;
          r12 = activation.pointer;
          r13 = 0;
          r14 = 0;
          r15 = 0;
          rip = trampoline;
        })
  ]
]

-- A kernel task starts on a stack pointer inside its stack, at most 16 bytes below its top, aligned as
-- the calling convention wants after a call, with its activation record in `r12`; and a stack with
-- room for one word always gives such a context.
pub bootstrap_context_lem :
    (stack_top : ℕ) (activation : ActivationRecord) (trampoline : ℕ)
    → 8 ≤ stack_top
    → stack_top ≤ 18446744073709551615
    → (c : Context) × (bootstrap_context stack_top activation trampoline ≡ some c)
      × (c.rsp ≤ stack_top)
      × (stack_top ≤ c.rsp + 15)
      × (c.rsp % 16 ≡ 8)
      × (c.r12 ≡ activation.pointer)
      × (c.rip ≡ trampoline)
unfolding bootstrap_context
bootstrap_context_lem stack_top activation trampoline low high =
    let below = stack_top - 8 in
    let rsp = (below - below % 16) + 8 in
    let a : leb 8 stack_top ≡ true = ground arith in
    let b : leb rsp 18446744073709551615 ≡ true = ground arith in
    let d : (nat_eq rsp 0 || ltb stack_top rsp || not (nat_eq (rsp % 16) 8)) ≡ false =
      ground arith in
    (
      record {
        rsp = rsp;
        rbp = 0;
        rbx = 0;
        r12 = activation.pointer;
        r13 = 0;
        r14 = 0;
        r15 = 0;
        rip = trampoline;
      },
      rw (a, b, d, bootstrap_context) refl,
      omega arith,
      omega arith,
      omega arith,
      refl,
      refl,
    )
