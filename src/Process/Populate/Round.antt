-- ===== src/Process/Populate/Round.antt =====
-- What one round of the loop over a segment writes.
use x.Base.{
  byte_at, ℕ, suc, ◌+◌, ◌-◌, ◌≤◌, ◌<◌, ◌≡◌, ◌∙◌, inl, inr, refl, subst, false, some, List, [], ◌∷◌,
  length, take, drop, get_elem?, ltb, nat_eq, checked_add, if◌then◌else◌, ok, Result-cases,
  Option-cases, Bool-cases, arith,
}
use x.Memory.Page.{page_base, page_size_4k}
use x.Process.Elf.{LoadSegment}
use x.Process.Loader.{LoadResult, MappedPage, page, mapped_pages}
use x.Process.Populate.{
  ImagePageWriter, Chunk, least, find_from, find_mapped_page, next_chunk, copy_bytes, copy_chunk,
  populate_chunk,
}
use x.Process.Populate.Bytes.{byte_at-drop, byte_at-take, length-drop, length-take, chunk_byte}
use x.Process.Populate.Laws.{Confined}

find_from-page :
    (k : ℕ) (ps : List MappedPage) (a j : ℕ)
    → find_from k ps a ≡ some j
    → (i : ℕ) × (p : MappedPage) × (j ≡ k + i) × (get_elem? ps i ≡ some p) × (p.virtual_address ≡ a)
unfolding find_from
find_from-page k [] a j h = absurd (ground arith)
find_from-page k (p ∷ ps) a j h = elim (Bool-cases (nat_eq p.virtual_address a)) [
  | inl e ↦ (0, p, ground arith, refl, ground arith)
  | inr e ↦
      let (i, q, at, found, here) = find_from-page (suc k) ps a j (ground arith) in
      (suc i, q, omega arith, found, here)
]

-- Where a chunk lies.
abbrev pub Placed : LoadResult → LoadSegment → ℕ → Chunk → Type 0
Placed loaded s offset c =
    let a = s.virtual_range.start + offset in
    (i : ℕ) × (p : MappedPage) × (get_elem? loaded.pages i ≡ some p)
    × (p.virtual_address ≡ page_base a)
    × (p.physical_address ≡ c.physical)
    × (c.page_offset ≡ a - page_base a)
    × (c.len ≡ least (s.memory_size - offset) (page_size_4k - (a - page_base a)))

pub next_chunk-Placed :
    (loaded : LoadResult) (s : LoadSegment) (memory_end offset : ℕ) (c : Chunk)
    → next_chunk loaded s memory_end offset ≡ ok c
    → Placed loaded s offset c
unfolding next_chunk page mapped_pages find_mapped_page
next_chunk-Placed loaded s memory_end offset c h =
    let a = s.virtual_range.start + offset in
    elim (Option-cases (find_from 0 loaded.pages (page_base a))) [
      | inl missing ↦ absurd (ground arith)
      | inr (j, found) ↦
          let (i, p, same, at, here) = find_from-page 0 loaded.pages (page_base a) j found in
          let e : i ≡ j = omega (arith, same) in
          let at_j : get_elem? loaded.pages j ≡ some p =
            subst (λ x. get_elem? loaded.pages x ≡ some p) e at in
          (j, p, at_j, here, ground arith, ground arith, ground arith)
    ]

-- Addresses of one page have the same base.
pub page_base_near :
    (a j : ℕ)
    → (a - page_base a) + j < 4096
    → (page_base (a + j) ≡ page_base a) × ((a + j) - page_base (a + j) ≡ (a - page_base a) + j)
page_base_near a j h = (omega arith, omega arith)

-- A writer that keeps to its frame, and whose successful operations write what they say.
pub record Stores {W E : Type 0} (writer : ImagePageWriter W E) (frame : W → ℕ → ℕ → ℕ)
    : Type 0 where
  pub confined : Confined writer frame
  pub zeroed :
      (w : W) (p offset len i : ℕ)
      → (writer.zero_page_range w p offset len).1 ≡ ok tt
      → offset ≤ i
      → i < offset + len
      → frame (writer.zero_page_range w p offset len).0 p i ≡ 0
  pub copied :
      (w : W) (p offset : ℕ) (bs : List ℕ) (i : ℕ)
      → (writer.copy_into_page w p offset bs).1 ≡ ok tt
      → i < length bs
      → frame (writer.copy_into_page w p offset bs).0 p (offset + i) ≡ byte_at bs i
  pub copy_beyond :
      (w : W) (p offset : ℕ) (bs : List ℕ) (i : ℕ)
      → (writer.copy_into_page w p offset bs).1 ≡ ok tt
      → offset + length bs ≤ i
      → frame (writer.copy_into_page w p offset bs).0 p i ≡ frame w p i

module _ {W E : Type 0} (writer : ImagePageWriter W E) (frame : W → ℕ → ℕ → ℕ)
    (stores : Stores writer frame) where
  -- A copy of `len` bytes into a cleared page leaves them, and zeros behind them.
  copy_bytes-holds :
      (bytes : List ℕ) (c : Chunk) (start len i : ℕ) (w : W)
      → (copy_bytes writer bytes c start len w).1 ≡ ok tt
      → start + len ≤ length bytes
      → frame w c.physical (c.page_offset + i) ≡ 0
      → frame (copy_bytes writer bytes c start len w).0 c.physical (c.page_offset + i)
        ≡ (if ltb i len then byte_at bytes (start + i) else 0)
  unfolding copy_bytes
  copy_bytes-holds bytes c start len i w h fits clear = elim (Bool-cases (nat_eq len 0)) [
    | inl nothing ↦ let e : ltb i len ≡ false = ground arith in rw (nothing, e, copy_bytes) clear
    | inr some_bytes ↦ elim (Option-cases (checked_add start len)) [
      | inl over ↦ absurd (ground arith)
      | inr (end, at) ↦
          let e : end - start ≡ len = ground arith in
          let part = take (end - start) (drop start bytes) in
          let size : length part ≡ len =
            rw e (length-take len (drop start bytes) (omega (arith, length-drop start bytes))) in
          elim (Result-cases (writer.copy_into_page w c.physical c.page_offset part).1) [
            | inr (x, bad) ↦ absurd (ground arith)
            | inl (u, good) ↦ elim (Bool-cases (ltb i len)) [
              | inl inside ↦
                  rw (some_bytes, at, inside, copy_bytes)
                    (stores.copied w c.physical c.page_offset part i good
                        (ground (arith, size, inside))
                      ∙ rw e (
                          byte_at-take len (drop start bytes) i (ground arith)
                          ∙ byte_at-drop start bytes i))
              | inr outside ↦
                  rw (some_bytes, at, outside, copy_bytes)
                    (stores.copy_beyond w c.physical c.page_offset part (c.page_offset + i) good
                        (ground (arith, size, outside))
                      ∙ clear)
            ]
          ]
    ]
  ]

  -- A round leaves the bytes of its chunk: those of the file, and zeros from the end of the file on.
  pub populate_chunk-holds :
      (loaded : LoadResult) (s : LoadSegment) (bytes : List ℕ) (memory_end offset next i : ℕ)
      (c : Chunk) (w : W)
      → (populate_chunk writer loaded s bytes memory_end offset w).1 ≡ ok next
      → next_chunk loaded s memory_end offset ≡ ok c
      → c.page_offset + c.len ≤ 4096
      → length bytes ≡ s.file_size
      → i < c.len
      → frame
          (populate_chunk writer loaded s bytes memory_end offset w).0
          c.physical
          (c.page_offset + i)
        ≡ byte_at bytes (offset + i)
  unfolding populate_chunk copy_chunk
  populate_chunk-holds loaded s bytes memory_end offset next i c w r h room size low =
      let start = least offset s.file_size in
      let len = least (length bytes - start) c.len in
      elim (Result-cases (writer.zero_page_range w c.physical 0 page_size_4k).1) [
        | inr (e, z) ↦ absurd (ground arith)
        | inl (u, z) ↦
            let w1 = (writer.zero_page_range w c.physical 0 page_size_4k).0 in
            let clear =
              stores.zeroed w c.physical 0 page_size_4k (c.page_offset + i) z (omega arith)
                (omega arith) in
            elim (Result-cases (copy_bytes writer bytes c start len w1).1) [
              | inr (e, k) ↦ absurd (ground arith)
              | inl (v, k) ↦
                  rw (h, populate_chunk)
                    (rw z (
                      copy_bytes-holds bytes c start len i w1 k (ground arith) clear
                      ∙ chunk_byte bytes s.file_size offset c.len i size low))
            ]
      ]

  pub populate_chunk-ok :
      (loaded : LoadResult) (s : LoadSegment) (bytes : List ℕ) (memory_end offset next : ℕ) (w : W)
      → (populate_chunk writer loaded s bytes memory_end offset w).1 ≡ ok next
      → (c : Chunk) × (next_chunk loaded s memory_end offset ≡ ok c) × (next ≡ offset + c.len)
  unfolding populate_chunk
  populate_chunk-ok loaded s bytes memory_end offset next w r =
      elim (Result-cases (next_chunk loaded s memory_end offset)) [
        | inr (e, h) ↦ absurd (ground arith)
        | inl (c, h) ↦ elim (Result-cases (writer.zero_page_range w c.physical 0 page_size_4k).1) [
          | inr (e, z) ↦ absurd (ground arith)
          | inl (u, z) ↦
              elim (Result-cases
                (copy_chunk writer bytes s.file_size c offset
                  (writer.zero_page_range w c.physical 0 page_size_4k).0).1) [
                    | inr (e, k) ↦ absurd (ground arith)
                    | inl (v, k) ↦ (c, h, ground arith)
                  ]
        ]
      ]
