-- ===== src/Syscall.antt =====
-- System call dispatch, kernel/src/syscall.rs. The sink that receives what is written and the
-- control object of processes are states with their operations as arguments; the view of the page
-- tables and the copying backend are those of Memory/UserCopy.
pub mod Laws
pub mod Write
use x.Base.{
  ℕ, zero, suc, ◌+◌, ◌-◌, Bool, true, false, not, Option, none, some, List, nat_eq, ltb, leb,
  if◌then◌else◌, checked_add, Result, ok, err, ok_or, map_err, ◌>>=◌,
}
use x.Abi
use x.Abi.{
  Syscall, write, exit, yield, from_number, number, return_value, UserSlice, is_empty_slice,
}
use x.Memory.User.{UserRangeError, address_overflow, validate_slice}
use x.Memory.Mapping.{PageAccess}
use x.Memory.UserCopy.{UserReadError, copy_from_user}

pub record SyscallRequest : Type 0 where
  pub number : ℕ
  pub arg0 : ℕ
  pub arg1 : ℕ
  pub arg2 : ℕ

unfoldable pub new : ℕ → ℕ → ℕ → ℕ → SyscallRequest
new number arg0 arg1 arg2 = record { number = number; arg0 = arg0; arg1 = arg1; arg2 = arg2 }

unfoldable pub write_request : UserSlice → SyscallRequest
unfolding new number
write_request slice = new (number write) slice.ptr slice.len 0

unfoldable pub exit_request : ℕ → SyscallRequest
unfolding new number
exit_request code = new (number exit) code 0 0

unfoldable pub yield_request : SyscallRequest
unfolding new number
yield_request = new (number yield) 0 0 0

unfoldable pub syscall : SyscallRequest → Option Syscall
unfolding from_number
syscall r = from_number r.number

unfoldable pub user_slice : SyscallRequest → UserSlice
user_slice r = record { ptr = r.arg0; len = r.arg1 }

pub data SyscallError : Type 0 where
  unknown_number not_implemented invalid_arguments : SyscallError
  invalid_user_range : UserRangeError → SyscallError
  invalid_user_memory : UserReadError → SyscallError
  write_failed : SyscallError

unfoldable pub abi_error : SyscallError → Abi.SyscallError
abi_error unknown_number = Abi.unknown_syscall
abi_error not_implemented = Abi.not_implemented
abi_error invalid_arguments = Abi.invalid_arguments
abi_error (invalid_user_range e) = Abi.invalid_user_range
abi_error (invalid_user_memory e) = Abi.invalid_user_memory
abi_error write_failed = Abi.write_failed

unfoldable pub abi_return_value : SyscallError → ℕ
unfolding abi_error return_value
abi_return_value e = return_value (abi_error e)

pub data SyscallReturnAction : Type 0 where
  return reschedule terminate : SyscallReturnAction

abbrev pub SyscallResult : Type 0
SyscallResult = Result SyscallError ℕ

pub record SyscallDispatch : Type 0 where
  pub result : SyscallResult
  pub action : SyscallReturnAction

abbrev pub returned : SyscallResult → SyscallDispatch
returned result = record { result = result; action = return }

abbrev pub dispatch_reschedule : ℕ → SyscallDispatch
dispatch_reschedule value = record { result = ok value; action = reschedule }

abbrev pub dispatch_terminate : ℕ → SyscallDispatch
dispatch_terminate value = record { result = ok value; action = terminate }

unfoldable pub dispatch : SyscallRequest → SyscallResult
unfolding syscall user_slice validate_slice
dispatch r = do
  _ ← map_err invalid_user_range (validate_slice (user_slice r))
  call ← ok_or (syscall r) unknown_number
  elim call [
    | write ↦ err not_implemented
    | exit ↦ err not_implemented
    | yield ↦ err not_implemented
  ]

-- `WriteSink::write`, on a sink of type `S`.
abbrev pub SinkWrite : Type 0 → Type 0
SinkWrite S = S → List ℕ → S × Result SyscallError (Unit {0})

-- `ProcessSyscallControl`, on a control object of type `C`.
pub record ProcessSyscallControl (C : Type 0) : Type 0 where
  pub on_exit : C → ℕ → C × Result SyscallError (Unit {0})
  pub on_yield : C → C × Result SyscallError (Unit {0})

-- What the two lifecycle calls make of the answer of the control object.
abbrev pub concluded : Result SyscallError (Unit {0}) → SyscallDispatch → SyscallDispatch
concluded (ok _) done = done
concluded (err e) done = returned (err e)

module _ {C : Type 0} (control : ProcessSyscallControl C) where
  unfoldable pub exit_action : ℕ → C → C × SyscallDispatch
  exit_action code c =
      let (c', r) = control.on_exit c code in (c', concluded r (dispatch_terminate 0))

  unfoldable pub yield_action : C → C × SyscallDispatch
  yield_action c = let (c', r) = control.on_yield c in (c', concluded r (dispatch_reschedule 0))

  unfoldable pub dispatch_with_control_action : SyscallRequest → C → C × SyscallDispatch
  unfolding syscall exit_action yield_action
  dispatch_with_control_action r c = elim (syscall r) [
    | none ↦ (c, returned (err unknown_number))
    | some call ↦ elim call [
      | exit ↦ exit_action r.arg0 c
      | yield ↦ yield_action c
      | write ↦ (c, returned (err not_implemented))
    ]
  ]

  unfoldable pub dispatch_with_control : SyscallRequest → C → C × SyscallResult
  dispatch_with_control r c = let (c', d) = dispatch_with_control_action r c in (c', d.result)

-- The parameters of a copy from user memory: the access of each page, and the bytes there.
module _ {S : Type 0} (access : ℕ → PageAccess) (backend : ℕ → ℕ → Result UserReadError (List ℕ))
    (sink : SinkWrite S) where
  -- One round of the loop of `sys_write_with_memory`: a chunk is copied, and handed to the sink.
  unfoldable pub write_chunk : UserSlice → ℕ → S → S × Result SyscallError ℕ
  unfolding copy_from_user
  write_chunk slice offset s =
      let remaining = slice.len - offset in
      let chunk_len = if leb remaining 256 then remaining else 256 in
      elim (checked_add slice.ptr offset) [
        | none ↦ (s, err (invalid_user_range address_overflow))
        | some chunk_ptr ↦
            let chunk : UserSlice = record { ptr = chunk_ptr; len = chunk_len } in
            elim (copy_from_user access backend chunk chunk_len) [
              | err e ↦ (s, err (invalid_user_memory e))
              | ok bytes ↦
                  let (s', written) = sink s bytes in
                  elim written [
                    | err e ↦ (s', err e)
                    | ok _ ↦ (s', ok_or (checked_add offset chunk_len) invalid_arguments)
                  ]
            ]
      ]

  -- The loop, on fuel. Each round writes at least one byte, so the length of the slice is enough.
  unfoldable pub write_loop : ℕ → UserSlice → ℕ → S → S × SyscallResult
  unfolding write_chunk
  write_loop zero slice offset s =
      (s, if ltb offset slice.len then err invalid_arguments else ok slice.len)
  write_loop (suc fuel) slice offset s = elim (ltb offset slice.len) [
    | false ↦ (s, ok slice.len)
    | true ↦
        let (s', next) = write_chunk slice offset s in
        elim next [ err e ↦ (s', err e) | ok offset' ↦ write_loop fuel slice offset' s' ]
  ]

  unfoldable pub sys_write_with_memory : UserSlice → S → S × SyscallResult
  unfolding validate_slice is_empty_slice write_loop
  sys_write_with_memory slice s = elim (validate_slice slice) [
    | err e ↦ (s, err (invalid_user_range e))
    | ok _ ↦ if is_empty_slice slice then (s, ok 0) else write_loop slice.len slice 0 s
  ]

  -- The arm of `Syscall::Write`.
  unfoldable pub write_arm : SyscallRequest → S → S × SyscallResult
  unfolding user_slice sys_write_with_memory
  write_arm r s =
      if not (nat_eq r.arg2 0)
      then (s, err invalid_arguments)
      else sys_write_with_memory (user_slice r) s

  unfoldable pub dispatch_with_memory : SyscallRequest → S → S × SyscallResult
  unfolding syscall write_arm
  dispatch_with_memory r s = elim (syscall r) [
    | none ↦ (s, err unknown_number)
    | some call ↦ elim call [
      | write ↦ write_arm r s
      | exit ↦ (s, err not_implemented)
      | yield ↦ (s, err not_implemented)
    ]
  ]

  module _ {C : Type 0} (control : ProcessSyscallControl C) where
    unfoldable pub dispatch_with_memory_and_control_action :
        SyscallRequest → S → C → S × C × SyscallDispatch
    unfolding syscall write_arm exit_action yield_action
    dispatch_with_memory_and_control_action r s c = elim (syscall r) [
      | none ↦ (s, c, returned (err unknown_number))
      | some call ↦ elim call [
        | write ↦ let (s', result) = write_arm r s in (s', c, returned result)
        | exit ↦ let (c', d) = exit_action control r.arg0 c in (s, c', d)
        | yield ↦ let (c', d) = yield_action control c in (s, c', d)
      ]
    ]

    unfoldable pub dispatch_with_memory_and_control : SyscallRequest → S → C → S × C × SyscallResult
    dispatch_with_memory_and_control r s c =
        let (s', c', d) = dispatch_with_memory_and_control_action r s c in (s', c', d.result)
