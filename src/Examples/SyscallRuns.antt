-- ===== src/Examples/SyscallRuns.antt =====
-- A write of 600 bytes of a readable user memory, to a sink that keeps all it is given.
use x.Base.{ℕ, ◌≡◌, ◌≤◌, ◌⊎◌, inl, refl, List, [], ◌++◌, arith, Result, ok, err}
use x.Abi.{UserSlice}
use x.Memory.Mapping.{PageAccess, user_read_only}
use x.Memory.UserCopy.{UserReadError, validate_readable_range}
use x.Memory.UserCopy.Laws.{validate_readable_range_iff}
use x.Syscall.{SinkWrite, SyscallError, sys_write_with_memory}
use x.Syscall.Write.{bytes, sys_write_with_memory-Sends, sys_write_with_memory-ok}

abbrev memory : ℕ → ℕ
memory a = a

abbrev access : ℕ → PageAccess
access a = user_read_only

abbrev backend : ℕ → ℕ → Result UserReadError (List ℕ)
backend p n = ok (bytes memory p n)

abbrev sink : SinkWrite (List ℕ)
sink s bs = (s ++ bs, ok tt)

abbrev sent : List ℕ → List ℕ
sent s = s

abbrev slice : UserSlice
slice = record { ptr = 0x401000; len = 600 }

slice_readable : validate_readable_range access slice ≡ ok tt
slice_readable =
    (validate_readable_range_iff access slice (λ e. omega arith)).1
      (omega arith, omega arith, λ a low high. (refl, refl, refl))

sys_write_with_memory-Sends_example :
    let (s', r) = sys_write_with_memory access backend sink slice [] in
    (n : ℕ) × (n ≤ slice.len)
    × (sent s' ≡ [] ++ bytes memory slice.ptr n)
    × (((r ≡ ok slice.len) × (n ≡ slice.len)) ⊎ ((e : SyscallError) × (r ≡ err e)))
sys_write_with_memory-Sends_example =
    sys_write_with_memory-Sends memory access backend sink sent (λ p n. inl refl)
      (λ s bs. inl (refl, refl)) slice []

sys_write_with_memory-ok_example : (sys_write_with_memory access backend sink slice []).1 ≡ ok 600
sys_write_with_memory-ok_example =
    sys_write_with_memory-ok memory access backend sink (λ p n. refl) (λ s bs. refl) slice []
      (λ e. omega arith) slice_readable
