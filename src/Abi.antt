-- ===== src/Abi.antt =====
-- The contract between kernel and userspace, abi/src/lib.rs.
use x.Base.{
  ◌↔◌, ◌⊎◌, inl, inr, Bool-cases, leb, ℕ, ◌+◌, ◌-◌, ◌%◌, ◌^◌, ◌≤◌, ◌<◌, ◌≡◌, refl, Bool, Option,
  none, some, nat_eq, if◌then◌else◌, arith, u64_max,
}

pub data Syscall : Type 0 where
  write exit yield : Syscall

unfoldable pub number : Syscall → ℕ
number write = 0
number exit = 1
number yield = 2

unfoldable pub from_number : ℕ → Option Syscall
from_number n =
    if nat_eq n 0
    then some write
    else if nat_eq n 1
    then some exit
    else if nat_eq n 2
    then some yield
    else none

pub data SyscallError : Type 0 where
  unknown_syscall not_implemented invalid_arguments : SyscallError
  invalid_user_range invalid_user_memory write_failed : SyscallError

-- The discriminants of the `repr(u64)`.
unfoldable pub code : SyscallError → ℕ
code unknown_syscall = 1
code not_implemented = 2
code invalid_arguments = 3
code invalid_user_range = 4
code invalid_user_memory = 5
code write_failed = 6

-- `0u64.wrapping_sub(n)`
abbrev pub negated : ℕ → ℕ
negated n = (0 + 2 ^ 64 - n) % 2 ^ 64

unfoldable pub return_value : SyscallError → ℕ
unfolding code
return_value e = negated (code e)

abbrev error_of : ℕ → Option SyscallError
error_of n =
    if nat_eq n 1
    then some unknown_syscall
    else if nat_eq n 2
    then some not_implemented
    else if nat_eq n 3
    then some invalid_arguments
    else if nat_eq n 4
    then some invalid_user_range
    else if nat_eq n 5
    then some invalid_user_memory
    else if nat_eq n 6
    then some write_failed
    else none

unfoldable pub from_return_value : ℕ → Option SyscallError
from_return_value value = error_of (negated value)

pub record UserSlice : Type 0 where
  pub ptr : ℕ
  pub len : ℕ

abbrev pub empty_slice : UserSlice
empty_slice = record { ptr = 0; len = 0 }

unfoldable pub is_empty_slice : UserSlice → Bool
is_empty_slice s = nat_eq s.len 0

from_number-number : (c : Syscall) → from_number (number c) ≡ some c
unfolding from_number number
from_number-number write = refl
from_number-number exit = refl
from_number-number yield = refl

from_number_inv : (c : Syscall) (n : ℕ) → from_number n ≡ some c → n ≡ number c
unfolding from_number number
from_number_inv c n h = ground arith

decode-return_value : (e : SyscallError) → from_return_value (return_value e) ≡ some e
unfolding from_return_value return_value
decode-return_value unknown_syscall = refl
decode-return_value _ = refl

return_value_high : (e : SyscallError) → u64_max - 16 < return_value e
unfolding return_value
return_value_high unknown_syscall = omega arith
return_value_high _ = omega arith

decode_inv :
    (e : SyscallError) (n : ℕ) → n ≤ u64_max → from_return_value n ≡ some e → n ≡ return_value e
unfolding from_return_value return_value
decode_inv unknown_syscall n b h = ground arith
decode_inv _ n b h = ground arith

small : (n : ℕ) → n ≤ u64_max - 16 → from_return_value n ≡ none
unfolding from_return_value
small n h = ground arith

-- A syscall is decoded from its number and from no other, and an error from its return value, which
-- is one of the sixteen largest 64-bit values; a 64-bit value at most `u64::MAX - 16` decodes to no
-- error.
pub abi_round_trip :
    (c : Syscall) (e : SyscallError) (n : ℕ)
    → n ≤ u64_max
    → (from_number (number c) ≡ some c)
      × ((from_number n ≡ some c) ↔ (n ≡ number c))
      × (from_return_value (return_value e) ≡ some e)
      × (u64_max - 16 < return_value e)
      × ((from_return_value n ≡ some e) ↔ (n ≡ return_value e))
      × ((u64_max - 16 < n) ⊎ (from_return_value n ≡ none))
abi_round_trip c e n h = (
  from_number-number c,
  (from_number_inv c n, λ k. rw k (from_number-number c)),
  decode-return_value e,
  return_value_high e,
  (decode_inv e n h, λ k. rw k (decode-return_value e)),
  elim (Bool-cases (leb n (u64_max - 16))) [
    | inl b ↦ inr (small n (ground arith))
    | inr b ↦ inl (ground arith)
  ],
)
