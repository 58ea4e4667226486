-- ===== src/Process/Populate/Bytes.antt =====
-- The bytes of a segment, as far as the file has them.
use x.Base.{
  byte_at, ℕ, zero, suc, ◌+◌, ◌-◌, ◌≤◌, ◌<◌, ◌≡◌, ◌∙◌, inl, inr, refl, sym, ap, List, [], ◌∷◌,
  length, take, drop, ltb, if◌then◌else◌, ok, Bool-cases, arith,
}
use x.Process.Elf.{LoadSegment}
use x.Process.Populate.{least, file_part}

pub byte_at-beyond : (bs : List ℕ) (i : ℕ) → length bs ≤ i → byte_at bs i ≡ 0
byte_at-beyond [] i h = refl
byte_at-beyond (b ∷ bs) zero h = absurd (omega arith)
byte_at-beyond (b ∷ bs) (suc i) h = byte_at-beyond bs i (omega arith)

pub byte_at-drop : (n : ℕ) (bs : List ℕ) (i : ℕ) → byte_at (drop n bs) i ≡ byte_at bs (n + i)
byte_at-drop zero bs i = let e : 0 + i ≡ i = omega arith in rw e refl
byte_at-drop (suc n) [] i = refl
byte_at-drop (suc n) (b ∷ bs) i =
    let e : suc n + i ≡ suc (n + i) = omega arith in rw e (byte_at-drop n bs i)

pub byte_at-take : (n : ℕ) (bs : List ℕ) (i : ℕ) → i < n → byte_at (take n bs) i ≡ byte_at bs i
byte_at-take zero bs i h = absurd (omega arith)
byte_at-take (suc n) [] i h = refl
byte_at-take (suc n) (b ∷ bs) zero h = refl
byte_at-take (suc n) (b ∷ bs) (suc i) h = byte_at-take n bs i (omega arith)

pub length-drop : (n : ℕ) (bs : List ℕ) → length (drop n bs) ≡ length bs - n
length-drop zero bs = omega arith
length-drop (suc n) [] = omega arith
length-drop (suc n) (b ∷ bs) = omega (arith, length-drop n bs)

pub length-take : (n : ℕ) (bs : List ℕ) → n ≤ length bs → length (take n bs) ≡ n
length-take zero bs h = refl
length-take (suc n) [] h = absurd (omega arith)
length-take (suc n) (b ∷ bs) h = omega (arith, length-take n bs (omega arith))

-- The byte of a segment at an offset: that of the file, and zero from the end of the file on.
abbrev pub segment_byte : List ℕ → LoadSegment → ℕ → ℕ
segment_byte bytes s o = if ltb o s.file_size then byte_at bytes (s.file_offset + o) else 0

pub file_part-bytes :
    (bytes : List ℕ) (s : LoadSegment) (part : List ℕ) (memory_end : ℕ)
    → file_part bytes s ≡ ok (part, memory_end)
    → (length part ≡ s.file_size) × ((o : ℕ) → byte_at part o ≡ segment_byte bytes s o)
unfolding file_part
file_part-bytes bytes s part memory_end h =
    let n = (s.file_offset + s.file_size) - s.file_offset in
    let at : part ≡ take n (drop s.file_offset bytes) = ground arith in
    let fits : s.file_offset + s.file_size ≤ length bytes = ground arith in
    let size : length part ≡ s.file_size = rw at (
      length-take n (drop s.file_offset bytes) (omega (arith, length-drop s.file_offset bytes))
      ∙ (omega arith)) in
    (
      size,
      λ o. elim (Bool-cases (ltb o s.file_size)) [
        | inl inside ↦
            rw (inside, at)
              (byte_at-take n (drop s.file_offset bytes) o (ground (arith, inside))
                ∙ byte_at-drop s.file_offset bytes o)
        | inr beyond ↦ rw beyond (byte_at-beyond part o (ground (arith, size, beyond)))
      ],
    )

-- The byte that a chunk has at an index, by the part of it that is copied.
pub chunk_byte :
    (bytes : List ℕ) (size offset clen i : ℕ)
    → length bytes ≡ size
    → i < clen
    → let start = least offset size in
      (if ltb i (least (length bytes - start) clen) then byte_at bytes (start + i) else 0)
      ≡ byte_at bytes (offset + i)
chunk_byte bytes size offset clen i h low =
    let start = least offset size in
    let len = least (length bytes - start) clen in
    elim (Bool-cases (ltb i len)) [
      | inl inside ↦
          let e : start + i ≡ offset + i = ground arith in rw inside (ap (byte_at bytes) e)
      | inr outside ↦
          let beyond : length bytes ≤ offset + i = ground arith in
          rw outside (sym (byte_at-beyond bytes (offset + i) beyond))
    ]
