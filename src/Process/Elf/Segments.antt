-- ===== src/Process/Elf/Segments.antt =====
-- What the loop over the program headers reads: the segments that the headers ask for.
use x.Base.{
  ℕ, zero, suc, ◌+◌, ◌*◌, ◌/◌, ◌%◌, ◌≤◌, ◌<◌, ◌≡◌, ◌≢◌, ◌∙◌, ◌⊎◌, inl, inr, refl, sym, ap, Bool,
  false, ◌&&◌, ◌||◌, Option, none, some, List, [], ◌∷◌, ◌++◌, length, get_elem?, byte_at, nat_eq,
  ok, Option-cases, Bool-cases, Result-cases, arith,
}
use mathlib.Core.List.{append-nil, append_assoc}
use x.Memory.Ranges.{user_space_start, kernel_space_start, virt_range, virt_len, is_user}
use x.Process.Elf.{
  LoadSegment, read_bytes, read_le, read_u16, read_u32, read_u64, check_segment, read_segment,
  read_segments, keep_segment, loads,
}

-- The number that `n` bytes from an offset are, the least significant first.
unfoldable pub word : List ℕ → ℕ → ℕ → ℕ
word bytes offset zero = 0
word bytes offset (suc n) = byte_at bytes offset + 256 * word bytes (offset + 1) n

pub byte_at-get_elem? : (bs : List ℕ) (i b : ℕ) → get_elem? bs i ≡ some b → b ≡ byte_at bs i
byte_at-get_elem? [] i b h = absurd (ground arith)
byte_at-get_elem? (x ∷ bs) zero b h = ground arith
byte_at-get_elem? (x ∷ bs) (suc i) b h = byte_at-get_elem? bs i b h

read_bytes-word :
    (bytes : List ℕ) (n offset v : ℕ) → read_bytes bytes offset n ≡ some v → v ≡ word bytes offset n
unfolding read_bytes word
read_bytes-word bytes zero offset v h = ground arith
read_bytes-word bytes (suc n) offset v h = elim (Option-cases (get_elem? bytes offset)) [
  | inl out ↦ absurd (ground arith)
  | inr (b, at) ↦ elim (Option-cases (read_bytes bytes (offset + 1) n)) [
    | inl out ↦ absurd (ground arith)
    | inr (high, rest) ↦
        let low = byte_at-get_elem? bytes offset b at in
        let more = read_bytes-word bytes n (offset + 1) high rest in ground arith
  ]
]

read_le-word :
    (n : ℕ) (bytes : List ℕ) (offset v : ℕ)
    → read_le n bytes offset ≡ some v
    → v ≡ word bytes offset n
unfolding read_le
read_le-word n bytes offset v h = read_bytes-word bytes n offset v (ground arith)

pub read_u16-word :
    (bytes : List ℕ) (offset v : ℕ) → read_u16 bytes offset ≡ some v → v ≡ word bytes offset 2
unfolding read_u16
read_u16-word bytes offset v h = read_le-word 2 bytes offset v h

read_u32-word :
    (bytes : List ℕ) (offset v : ℕ) → read_u32 bytes offset ≡ some v → v ≡ word bytes offset 4
unfolding read_u32
read_u32-word bytes offset v h = read_le-word 4 bytes offset v h

pub read_u64-word :
    (bytes : List ℕ) (offset v : ℕ) → read_u64 bytes offset ≡ some v → v ≡ word bytes offset 8
unfolding read_u64
read_u64-word bytes offset v h = read_le-word 8 bytes offset v h

-- A program header at an offset asks for a segment: its fields stand in the header, it lies in the file
-- and, with at least one byte, in user space, and it is not both writable and executable.
pub record Describes (bytes : List ℕ) (base : ℕ) (s : LoadSegment) : Type 0 where
  pub flags : s.flags ≡ word bytes (base + 4) 4
  pub file_offset : s.file_offset ≡ word bytes (base + 8) 8
  pub start : s.virtual_range.start ≡ word bytes (base + 16) 8
  pub file_size : s.file_size ≡ word bytes (base + 32) 8
  pub memory_size : s.memory_size ≡ word bytes (base + 40) 8
  pub end : s.virtual_range.end ≡ s.virtual_range.start + s.memory_size
  pub in_file : s.file_offset + s.file_size ≤ length bytes
  pub covered : s.file_size ≤ s.memory_size
  pub some_bytes : 0 < s.memory_size
  pub in_user_space :
      (user_space_start ≤ s.virtual_range.start) × (s.virtual_range.end ≤ kernel_space_start)
  pub not_both : (nat_eq (s.flags / 2 % 2) 1 && nat_eq (s.flags % 2) 1) ≡ false

-- The segments that `n` headers of a size ask for, in their order: one for each header of the kind
-- `PT_LOAD`, and none for another.
abbrev pub Segments : List ℕ → ℕ → ℕ → ℕ → List LoadSegment → Type 0
Segments bytes size zero base ss = ss ≡ []
Segments bytes size (suc n) base ss =
    ((word bytes base 4 ≢ 1) × Segments bytes size n (base + size) ss)
    ⊎ ((word bytes base 4 ≡ 1)
        × ((s : LoadSegment) × (rest : List LoadSegment) × (ss ≡ s ∷ rest)
            × Describes bytes base s
            × Segments bytes size n (base + size) rest))

check_segment-parts :
    (size flags file_offset start file_size memory_size : ℕ) (s : LoadSegment)
    → check_segment size flags file_offset start file_size memory_size ≡ ok s
    → (s ≡ record {
      virtual_range = record { start = start; end = start + memory_size };
      flags = flags;
      file_offset = file_offset;
      file_size = file_size;
      memory_size = memory_size;
    })
      × (file_offset + file_size ≤ size)
      × (file_size ≤ memory_size)
      × (0 < memory_size)
      × (user_space_start ≤ start)
      × (start + memory_size ≤ kernel_space_start)
      × ((nat_eq (flags / 2 % 2) 1 && nat_eq (flags % 2) 1) ≡ false)
unfolding check_segment virt_range virt_len is_user
check_segment-parts size flags file_offset start file_size memory_size s h = (
  ground arith,
  ground arith,
  ground arith,
  ground arith,
  ground arith,
  ground arith,
  ground arith,
)

described :
    (bytes : List ℕ) (base fl fo va fs ms : ℕ) (s : LoadSegment)
    → read_u32 bytes (base + 4) ≡ some fl
    → read_u64 bytes (base + 8) ≡ some fo
    → read_u64 bytes (base + 16) ≡ some va
    → read_u64 bytes (base + 32) ≡ some fs
    → read_u64 bytes (base + 40) ≡ some ms
    → check_segment (length bytes) fl fo va fs ms ≡ ok s
    → Describes bytes base s
described bytes base fl fo va fs ms s a1 a2 a3 a4 a5 good =
    let (same, in_file, covered, some_bytes, low, high, not_both) =
      check_segment-parts (length bytes) fl fo va fs ms s good in
    rw same (record {
      flags = read_u32-word bytes (base + 4) fl a1;
      file_offset = read_u64-word bytes (base + 8) fo a2;
      start = read_u64-word bytes (base + 16) va a3;
      file_size = read_u64-word bytes (base + 32) fs a4;
      memory_size = read_u64-word bytes (base + 40) ms a5;
      end = refl;
      in_file = in_file;
      covered = covered;
      some_bytes = some_bytes;
      in_user_space = (low, high);
      not_both = not_both;
    })

-- What a round of the loop over the headers makes of one.
abbrev Read : List ℕ → ℕ → Option LoadSegment → Type 0
Read bytes base none = word bytes base 4 ≢ 1
Read bytes base (some s) = (word bytes base 4 ≡ 1) × Describes bytes base s

load_segment-Read :
    (bytes : List ℕ) (base : ℕ) (o : Option LoadSegment)
    → read_u32 bytes base ≡ some 1
    → read_segment bytes base ≡ ok o
    → Read bytes base o
unfolding read_segment
load_segment-Read bytes base o k h = elim (Option-cases (read_u32 bytes (base + 4))) [
  | inl out ↦ absurd (ground arith)
  | inr (fl, a1) ↦ elim (Option-cases (read_u64 bytes (base + 8))) [
    | inl out ↦ absurd (ground arith)
    | inr (fo, a2) ↦ elim (Option-cases (read_u64 bytes (base + 16))) [
      | inl out ↦ absurd (ground arith)
      | inr (va, a3) ↦ elim (Option-cases (read_u64 bytes (base + 32))) [
        | inl out ↦ absurd (ground arith)
        | inr (fs, a4) ↦ elim (Option-cases (read_u64 bytes (base + 40))) [
          | inl out ↦ absurd (ground arith)
          | inr (ms, a5) ↦ elim (Result-cases (check_segment (length bytes) fl fo va fs ms)) [
            | inr (e, bad) ↦ absurd (ground arith)
            | inl (s, good) ↦
                let same : o ≡ some s = ground arith in
                rw same (
                  sym (read_u32-word bytes base 1 k),
                  described bytes base fl fo va fs ms s a1 a2 a3 a4 a5 good,
                )
          ]
        ]
      ]
    ]
  ]
]

read_segment-Read :
    (bytes : List ℕ) (base : ℕ) (o : Option LoadSegment)
    → read_segment bytes base ≡ ok o
    → Read bytes base o
unfolding read_segment
read_segment-Read bytes base o h = elim (Option-cases (read_u32 bytes base)) [
  | inl out ↦ absurd (ground arith)
  | inr (kind, k) ↦ elim (Bool-cases (nat_eq kind 1)) [
    | inl load ↦
        let one : kind ≡ 1 = ground arith in load_segment-Read bytes base o (k ∙ ap some one) h
    | inr other ↦
        let none_read : o ≡ none = ground arith in
        let same = read_u32-word bytes base kind k in
        rw none_read (λ e. absurd (ground (arith, same, e, other)))
  ]
]

-- What the loop over the headers adds to the segments that it has.
Segments-next :
    (bytes : List ℕ) (size n base : ℕ) (o : Option LoadSegment) (acc ss found : List LoadSegment)
    → Read bytes base o
    → found ≡ keep_segment acc o ++ ss
    → Segments bytes size n (base + size) ss
    → (all : List LoadSegment) × (found ≡ acc ++ all) × Segments bytes size (suc n) base all
Segments-next bytes size n base none acc ss found r e rest = (ss, e, inl (r, rest))
Segments-next bytes size n base (some s) acc ss found r e rest =
    (s ∷ ss, e ∙ append_assoc acc (s ∷ []) ss, inr (r.0, (s, ss, refl, r.1, rest)))

pub read_segments-Segments :
    (bytes : List ℕ) (entry size n base : ℕ) (acc found : List LoadSegment) (x y : Bool)
    → read_segments bytes entry size n base acc x ≡ ok (found, y)
    → (ss : List LoadSegment) × (found ≡ acc ++ ss) × Segments bytes size n base ss
unfolding read_segments
read_segments-Segments bytes entry size zero base acc found x y h =
    let same : acc ≡ found = ground arith in ([], sym same ∙ sym (append-nil acc), refl)
read_segments-Segments bytes entry size (suc n) base acc found x y h =
    elim (Result-cases (read_segment bytes base)) [
      | inr (e, bad) ↦ absurd (ground arith)
      | inl (o, good) ↦
          let (ss, e, rest) =
            read_segments-Segments bytes entry size n (base + size) (keep_segment acc o) found
              (x || loads entry o) y (ground arith) in
          Segments-next bytes size n base o acc ss found (read_segment-Read bytes base o good) e
            rest
    ]
