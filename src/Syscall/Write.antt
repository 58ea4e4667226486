-- ===== src/Syscall/Write.antt =====
-- What a write system call delivers: the bytes of the caller's slice, in order, in chunks.
use x.Base.{
  ℕ, zero, suc, ◌+◌, ◌-◌, ◌≤◌, ◌<◌, ◌≡◌, ◌≢◌, ◌∙◌, ◌⊎◌, inl, inr, refl, sym, ap, false, some, List,
  [], ◌∷◌, ◌++◌, Result-cases, Bool-cases, arith, Result, ok, err, nat_eq, ltb, leb, if◌then◌else◌,
  checked_add, u64_max,
}
use mathlib.Core.List.{append_assoc, append-nil}
use x.Abi.{UserSlice, is_empty_slice}
use x.Memory.Ranges.{VirtRange}
use x.Memory.User.{validate_slice, validate_slice_iff}
use x.Memory.Mapping.{PageAccess}
use x.Memory.UserCopy.{UserReadError, copy_from_user, validate_readable_range}
use x.Memory.UserCopy.Laws.{validate_readable_range_iff}
use x.Syscall.{
  SyscallError, SyscallResult, SinkWrite, invalid_user_range, invalid_user_memory, write_chunk,
  write_loop, sys_write_with_memory,
}

-- `n` bytes of memory from an address on.
unfoldable pub bytes : (ℕ → ℕ) → ℕ → ℕ → List ℕ
bytes mem p zero = []
bytes mem p (suc n) = mem p ∷ bytes mem (p + 1) n

bytes-add : (mem : ℕ → ℕ) (p a b : ℕ) → bytes mem p (a + b) ≡ bytes mem p a ++ bytes mem (p + a) b
unfolding bytes
bytes-add mem p zero b = ground arith
bytes-add mem p (suc a) b =
    let e : suc a + b ≡ suc (a + b) = omega arith in
    let f : (p + 1) + a ≡ p + suc a = omega arith in
    rw e (ap (λ l. mem p ∷ l) (rw f at (bytes-add mem (p + 1) a b)))

-- A backend that gives the bytes of the user's memory, or an error.
abbrev pub Reads : (ℕ → ℕ) → (ℕ → ℕ → Result UserReadError (List ℕ)) → Type 0
Reads mem backend =
    (p n : ℕ) → (backend p n ≡ ok (bytes mem p n)) ⊎ ((e : UserReadError) × (backend p n ≡ err e))

-- A sink that takes all the bytes that it is given, or refuses them whole.
abbrev pub Takes : {S : Type 0} → (S → List ℕ) → SinkWrite S → Type 0
Takes {S} sent sink =
    (s : S) (bs : List ℕ)
    → (((sink s bs).1 ≡ ok tt) × (sent (sink s bs).0 ≡ sent s ++ bs))
      ⊎ ((e : SyscallError) × ((sink s bs).1 ≡ err e) × (sent (sink s bs).0 ≡ sent s))

module _ {S : Type 0} (mem : ℕ → ℕ) (access : ℕ → PageAccess)
    (backend : ℕ → ℕ → Result UserReadError (List ℕ)) (sink : SinkWrite S) (sent : S → List ℕ)
    (reads : Reads mem backend) (takes : Takes sent sink) where
  copied :
      (slice : UserSlice) (bs : List ℕ)
      → copy_from_user access backend slice slice.len ≡ ok bs
      → bs ≡ bytes mem slice.ptr slice.len
  unfolding copy_from_user
  copied slice bs h = ground (arith, reads slice.ptr slice.len)

  -- What a chunk does: nothing is sent and the loop ends, or the next bytes are.
  abbrev Chunk : UserSlice → ℕ → S → S × Result SyscallError ℕ → Type 0
  Chunk slice offset s r =
      ((s' : S) × (e : SyscallError) × (r ≡ (s', err e)) × (sent s' ≡ sent s))
      ⊎ ((s' : S) × (n : ℕ) × (0 < n)
          × (offset + n ≤ slice.len)
          × (r ≡ (s', ok (offset + n)))
          × (sent s' ≡ sent s ++ bytes mem (slice.ptr + offset) n))

  write_chunk-Chunk :
      (slice : UserSlice) (offset : ℕ) (s : S)
      → offset < slice.len
      → slice.ptr + slice.len ≤ u64_max
      → Chunk slice offset s (write_chunk access backend sink slice offset s)
  unfolding write_chunk
  write_chunk-Chunk slice offset s low room =
      let n = if leb (slice.len - offset) 256 then slice.len - offset else 256 in
      let pos : 0 < n = ground arith in
      let fits : offset + n ≤ slice.len = ground arith in
      let chunk : UserSlice = record { ptr = slice.ptr + offset; len = n } in
      let p : checked_add slice.ptr offset ≡ some (slice.ptr + offset) = ground arith in
      let q : checked_add offset n ≡ some (offset + n) = ground arith in
      elim (Result-cases (copy_from_user access backend chunk n)) [
        | inr (e, h) ↦ inl (s, invalid_user_memory e, rw (p, h, write_chunk) refl, refl)
        | inl (bs, h) ↦
            let content = copied chunk bs h in
            elim (takes s bs) [
              | inl (t, u) ↦ inr (
                (sink s bs).0,
                n,
                pos,
                fits,
                rw (p, h, t, q, write_chunk) refl,
                u ∙ ap (λ l. sent s ++ l) content,
              )
              | inr (e, t, u) ↦ inl ((sink s bs).0, e, rw (p, h, t, write_chunk) refl, u)
            ]
      ]

  -- What is sent from an offset of the slice on: the next `n` bytes, and all of them if the call
  -- succeeds.
  abbrev Sends : UserSlice → ℕ → S → S × SyscallResult → Type 0
  Sends slice offset s (s', r) =
      (n : ℕ) × (offset + n ≤ slice.len)
      × (sent s' ≡ sent s ++ bytes mem (slice.ptr + offset) n)
      × (((r ≡ ok slice.len) × (offset + n ≡ slice.len)) ⊎ ((e : SyscallError) × (r ≡ err e)))

  nothing :
      (slice : UserSlice) (offset : ℕ) (s : S) → sent s ≡ sent s ++ bytes mem (slice.ptr + offset) 0
  unfolding bytes
  nothing slice offset s = rw append-nil refl

  done :
      (slice : UserSlice) (s : S) (f : ℕ)
      → write_loop access backend sink f slice slice.len s ≡ (s, ok slice.len)
  unfolding write_loop
  done slice s zero = ground arith
  done slice s (suc f) = ground arith

  joined :
      (slice : UserSlice) (offset n : ℕ) (s t : S) (r : S × SyscallResult)
      → sent t ≡ sent s ++ bytes mem (slice.ptr + offset) n
      → Sends slice (offset + n) t r
      → Sends slice offset s r
  joined slice offset n s t (u, r) h (k, fits, e, end) =
      let a : slice.ptr + (offset + n) ≡ (slice.ptr + offset) + n = omega arith in
      (
        n + k,
        omega arith,
        e
            ∙ rw (h, a)
                (append_assoc (sent s) (bytes mem (slice.ptr + offset) n)
                    (bytes mem ((slice.ptr + offset) + n) k)
                  ∙ ap (λ l. sent s ++ l) (sym (bytes-add mem (slice.ptr + offset) n k))),
        elim end [ inl (p, q) ↦ inl (p, omega arith) | inr x ↦ inr x ],
      )

  write_loop-Sends :
      (fuel : ℕ) (slice : UserSlice) (offset : ℕ) (s : S)
      → offset ≤ slice.len
      → slice.len ≤ offset + fuel
      → slice.ptr + slice.len ≤ u64_max
      → Sends slice offset s (write_loop access backend sink fuel slice offset s)
  unfolding write_loop
  write_loop-Sends zero slice offset s low enough room =
      (0, omega arith, nothing slice offset s, inl (ground arith, omega arith))
  write_loop-Sends (suc f) slice offset s low enough room =
      elim (Bool-cases (ltb offset slice.len)) [
        | inr e ↦ (
          0,
          omega arith,
          rw (e, write_loop) (nothing slice offset s),
          inl (rw (e, write_loop) refl, ground arith),
        )
        | inl e ↦ elim (write_chunk-Chunk slice offset s (ground arith) room) [
          | inl (t, x, h, same) ↦
              rw (e, h, write_loop)
                (rw h (0, omega arith, same ∙ nothing slice offset s, inr (x, refl)))
          | inr (t, n, pos, fits, h, more) ↦
              rw (e, h, write_loop)
                (rw h (
                  joined slice offset n s t (write_loop access backend sink f slice (offset + n) t)
                    more (write_loop-Sends f slice (offset + n) t fits (omega arith) room)))
        ]
      ]

  write-Sends :
      (slice : UserSlice) (s : S)
      → Sends slice 0 s (sys_write_with_memory access backend sink slice s)
  unfolding sys_write_with_memory is_empty_slice
  write-Sends slice s = elim (Result-cases (validate_slice slice)) [
    | inr (e, h) ↦
        rw (h, sys_write_with_memory)
          (0, omega arith, nothing slice 0 s, inr (invalid_user_range e, refl))
    | inl (r, h) ↦
        rw (h, sys_write_with_memory)
          (elim (Bool-cases (nat_eq slice.len 0)) [
            | inl z ↦ rw z (0, omega arith, nothing slice 0 s, inl (ground arith, ground arith))
            | inr nz ↦
                let (_, _, inside) = (validate_slice_iff slice r).0 h in
                let (_, high) = inside (ground arith) in
                rw nz
                  (write_loop-Sends slice.len slice 0 s (omega arith) (omega arith) (omega arith))
          ])
  ]

  -- A write sends the sink the first `n` bytes of the caller's slice, in order and each once, and
  -- nothing else; it answers either the length of the slice, having sent all of it, or an error. The
  -- memory and the sink are any that keep the contract: a copy gives the bytes of memory or fails,
  -- and the sink takes all the bytes it is given or none.
  pub sys_write_with_memory-Sends :
      (slice : UserSlice) (s : S)
      → let (s', r) = sys_write_with_memory access backend sink slice s in
        (n : ℕ) × (n ≤ slice.len)
        × (sent s' ≡ sent s ++ bytes mem slice.ptr n)
        × (((r ≡ ok slice.len) × (n ≡ slice.len)) ⊎ ((e : SyscallError) × (r ≡ err e)))
  sys_write_with_memory-Sends slice s =
      let (n, fits, sends, end) = write-Sends slice s in
      let at : slice.ptr + 0 ≡ slice.ptr = omega arith in
      (
        n,
        omega arith,
        rw at at sends,
        elim end [ inl (good, all) ↦ inl (good, omega arith) | inr bad ↦ inr bad ],
      )

module _ {S : Type 0} (mem : ℕ → ℕ) (access : ℕ → PageAccess)
    (backend : ℕ → ℕ → Result UserReadError (List ℕ)) (sink : SinkWrite S)
    (reads : (p n : ℕ) → backend p n ≡ ok (bytes mem p n))
    (takes : (s : S) (bs : List ℕ) → (sink s bs).1 ≡ ok tt) where
  copies :
      (slice : UserSlice)
      → validate_readable_range access slice ≡ ok tt
      → copy_from_user access backend slice slice.len ≡ ok (bytes mem slice.ptr slice.len)
  unfolding copy_from_user
  copies slice h = ground (arith, reads slice.ptr slice.len)

  -- A part of a readable slice is readable.
  part_readable :
      (slice : UserSlice) (offset n : ℕ)
      → 0 < n
      → offset + n ≤ slice.len
      → validate_readable_range access slice ≡ ok tt
      → validate_readable_range access (record { ptr = slice.ptr + offset; len = n }) ≡ ok tt
  part_readable slice offset n pos fits h =
      let (low, high, all) = (validate_readable_range_iff access slice (λ e. omega arith)).0 h in
      (validate_readable_range_iff access (record { ptr = slice.ptr + offset; len = n })
          (λ e. omega arith)).1
        (omega arith, omega arith, λ a p q. all a (omega arith) (omega arith))

  write_chunk-ok :
      (slice : UserSlice) (offset : ℕ) (s : S)
      → offset < slice.len
      → slice.ptr + slice.len ≤ u64_max
      → validate_readable_range access slice ≡ ok tt
      → (t : S) × (n : ℕ) × (0 < n)
        × (offset + n ≤ slice.len)
        × (write_chunk access backend sink slice offset s ≡ (t, ok (offset + n)))
  unfolding write_chunk
  write_chunk-ok slice offset s low room h =
      let n = if leb (slice.len - offset) 256 then slice.len - offset else 256 in
      let pos : 0 < n = ground arith in
      let fits : offset + n ≤ slice.len = ground arith in
      let chunk : UserSlice = record { ptr = slice.ptr + offset; len = n } in
      let p : checked_add slice.ptr offset ≡ some (slice.ptr + offset) = ground arith in
      let q : checked_add offset n ≡ some (offset + n) = ground arith in
      let c = copies chunk (part_readable slice offset n pos fits h) in
      let bs = bytes mem (slice.ptr + offset) n in
      ((sink s bs).0, n, pos, fits, rw (p, c, takes s bs, q, write_chunk) refl)

  write_loop-ok :
      (fuel : ℕ) (slice : UserSlice) (offset : ℕ) (s : S)
      → offset ≤ slice.len
      → slice.len ≤ offset + fuel
      → slice.ptr + slice.len ≤ u64_max
      → validate_readable_range access slice ≡ ok tt
      → (write_loop access backend sink fuel slice offset s).1 ≡ ok slice.len
  unfolding write_loop
  write_loop-ok zero slice offset s low enough room h = ground arith
  write_loop-ok (suc f) slice offset s low enough room h =
      elim (Bool-cases (ltb offset slice.len)) [
        | inr e ↦ rw (e, write_loop) refl
        | inl e ↦
            let (t, n, pos, fits, c) = write_chunk-ok slice offset s (ground arith) room h in
            rw (e, c, write_loop)
              (rw c (write_loop-ok f slice (offset + n) t fits (omega arith) room h))
      ]

  -- Where every byte of the slice is readable, the copy does not fail and the sink refuses nothing, a
  -- write of at least one byte succeeds, and answers the length of the slice.
  pub sys_write_with_memory-ok :
      (slice : UserSlice) (s : S)
      → slice.len ≢ 0
      → validate_readable_range access slice ≡ ok tt
      → (sys_write_with_memory access backend sink slice s).1 ≡ ok slice.len
  unfolding sys_write_with_memory is_empty_slice
  sys_write_with_memory-ok slice s ne h =
      let (low, high, _) = (validate_readable_range_iff access slice ne).0 h in
      let r : VirtRange = record { start = slice.ptr; end = slice.ptr + slice.len } in
      let v = (validate_slice_iff slice r).1 (refl, refl, λ _. (low, high)) in
      let nz : nat_eq slice.len 0 ≡ false = ground arith in
      rw (v, nz, sys_write_with_memory)
        (write_loop-ok slice.len slice 0 s (omega arith) (omega arith) (omega arith) h)
