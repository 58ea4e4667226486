-- ===== src/Arch/Interrupted.antt =====
-- The saved state of an interrupted task: kernel/src/arch/x86_64/interrupted_state.rs and the
-- registers and the return frame of kernel/src/arch/x86_64/interrupt_entry.rs. The words of a return
-- frame are those that stand at its address.
use x.Base.{
  ℕ, ◌/◌, ◌%◌, Bool, false, not, ◌&&◌, ◌||◌, Option, none, some, nat_eq, is_some, if◌then◌else◌,
  checked_add,
}

pub record SavedRegisters : Type 0 where
  pub rax : ℕ
  pub rcx : ℕ
  pub rdx : ℕ
  pub rbx : ℕ
  pub rbp : ℕ
  pub rsi : ℕ
  pub rdi : ℕ
  pub r8 : ℕ
  pub r9 : ℕ
  pub r10 : ℕ
  pub r11 : ℕ
  pub r12 : ℕ
  pub r13 : ℕ
  pub r14 : ℕ
  pub r15 : ℕ

-- `InterruptReturnFrame`: the address of the frame, and the five words that may stand there.
pub record InterruptReturnFrame : Type 0 where
  pub raw : ℕ
  pub word0 : ℕ
  pub word1 : ℕ
  pub word2 : ℕ
  pub word3 : ℕ
  pub word4 : ℕ

-- `cs & 3`: the privilege level of a selector.
abbrev pub privilege : ℕ → ℕ
privilege selector = selector % 4

-- `frame.rsp()` and `frame.ss()` are there only where the privilege level changes.
unfoldable pub frame_rsp : InterruptReturnFrame → Option ℕ
frame_rsp f = if nat_eq (privilege f.word1) 0 then none else some f.word3

unfoldable pub frame_ss : InterruptReturnFrame → Option ℕ
frame_ss f = if nat_eq (privilege f.word1) 0 then none else some f.word4

-- A frame of the same privilege level is 24 bytes, one of another 40.
unfoldable pub frame_resume_rsp : InterruptReturnFrame → Option ℕ
frame_resume_rsp f = checked_add f.raw (if nat_eq (privilege f.word1) 0 then 24 else 40)

pub record ReturnState : Type 0 where
  pub rip : ℕ
  pub cs : ℕ
  pub rflags : ℕ
  pub resume_rsp : ℕ
  pub rsp : Option ℕ
  pub ss : Option ℕ

unfoldable pub capture_return : InterruptReturnFrame → Option ReturnState
unfolding frame_resume_rsp frame_rsp frame_ss
capture_return f = elim (frame_resume_rsp f) [
  | none ↦ none
  | some resume_rsp ↦ some (record {
    rip = f.word0;
    cs = f.word1;
    rflags = f.word2;
    resume_rsp = resume_rsp;
    rsp = frame_rsp f;
    ss = frame_ss f;
  })
]

unfoldable pub is_kernel : ReturnState → Bool
is_kernel r = nat_eq (privilege r.cs) 0

unfoldable pub is_user : ReturnState → Bool
is_user r = nat_eq (privilege r.cs) 3

-- `rflags & 2 != 0`
abbrev pub reserved_flag : ℕ → Bool
reserved_flag rflags = nat_eq (rflags / 2 % 2) 1

unfoldable pub kernel_iret_words : ReturnState → Option (ℕ × ℕ × ℕ)
unfolding is_kernel
kernel_iret_words r =
    if not (is_kernel r) || nat_eq r.rip 0 || not (reserved_flag r.rflags) || nat_eq r.resume_rsp 0
    then none
    else some (r.rip, r.cs, r.rflags)

pub record InterruptedState : Type 0 where
  pub registers : SavedRegisters
  pub return_state : ReturnState

-- `none` is the panic of a frame at the end of the address space.
unfoldable pub capture : SavedRegisters → InterruptReturnFrame → Option InterruptedState
unfolding capture_return
capture registers frame = elim (capture_return frame) [
  | none ↦ none
  | some r ↦ some (record { registers = registers; return_state = r })
]

unfoldable pub is_valid : InterruptedState → Bool
unfolding is_kernel
is_valid s =
    let r = s.return_state in
    not (nat_eq r.rip 0)
    && reserved_flag r.rflags
    && not (nat_eq r.resume_rsp 0)
    && (is_kernel r || (is_some r.rsp && is_some r.ss))

unfoldable pub is_user_valid : InterruptedState → Bool
unfolding is_valid is_user
is_user_valid s =
    let r = s.return_state in
    if not (is_valid s) || not (is_user r) || not (is_some r.rsp)
    then false
    else elim r.ss [ none ↦ false | some ss ↦ nat_eq (privilege r.cs) 3 && nat_eq (privilege ss) 3 ]
