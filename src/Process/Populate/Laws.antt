-- ===== src/Process/Populate/Laws.antt =====
-- What a population writes, and that it succeeds.
use x.Base.{
  ℕ, zero, suc, ◌+◌, ◌-◌, ◌≤◌, ◌<◌, ◌≡◌, ◌≢◌, ◌∙◌, inl, inr, refl, false, some, List, [], ◌∷◌,
  length, get_elem?, ltb, nat_eq, checked_add, ok, Result-cases, Option-cases, Bool-cases, arith,
}
use x.Memory.Page.{page_base, page_size_4k}
use x.Process.Elf.{ElfImage, LoadSegment}
use x.Process.Loader.{LoadResult, MappedPage, page, mapped_pages}
use x.Process.Builder.{BuiltAddressSpace, MappedStackPage}
use x.Process.Populate.{
  ImagePageWriter, Chunk, least, find_mapped_page, next_chunk, copy_bytes, copy_chunk,
  populate_chunk, populate_chunks, file_part, populate_segments, populate_image, zero_stack,
  populate,
}

-- The chunk lies in a frame of a page that was mapped.
next_chunk-mapped :
    (loaded : LoadResult) (s : LoadSegment) (memory_end offset : ℕ) (c : Chunk)
    → next_chunk loaded s memory_end offset ≡ ok c
    → (i : ℕ) × (p : MappedPage) × (get_elem? loaded.pages i ≡ some p)
      × (p.physical_address ≡ c.physical)
unfolding next_chunk page mapped_pages
next_chunk-mapped loaded s memory_end offset c h =
    elim (Option-cases (find_mapped_page loaded (page_base (s.virtual_range.start + offset)))) [
      | inl missing ↦ absurd (ground arith)
      | inr (i, found) ↦ elim (Option-cases (get_elem? loaded.pages i)) [
        | inl out ↦ absurd (ground arith)
        | inr (p, at) ↦ (i, p, at, ground arith)
      ]
    ]

-- The contents of the frames, as far as a writer of pages is concerned: an operation writes the frame
-- that it is given and no other.
pub record Confined {W E : Type 0} (writer : ImagePageWriter W E) (frame : W → ℕ → ℕ → ℕ)
    : Type 0 where
  pub copy_keeps :
      (w : W) (p offset : ℕ) (bs : List ℕ) (q : ℕ)
      → q ≢ p
      → frame (writer.copy_into_page w p offset bs).0 q ≡ frame w q
  pub zero_keeps :
      (w : W) (p offset len : ℕ) (q : ℕ)
      → q ≢ p
      → frame (writer.zero_page_range w p offset len).0 q ≡ frame w q

module _ {W E : Type 0} (writer : ImagePageWriter W E) (frame : W → ℕ → ℕ → ℕ)
    (confined : Confined writer frame) (q : ℕ) where
  copy_bytes-keeps :
      (bytes : List ℕ) (c : Chunk) (start len : ℕ) (w : W)
      → q ≢ c.physical
      → frame (copy_bytes writer bytes c start len w).0 q ≡ frame w q
  unfolding copy_bytes
  copy_bytes-keeps bytes c start len w other = elim (Bool-cases (nat_eq len 0)) [
    | inl nothing ↦ rw (nothing, copy_bytes) refl
    | inr some_bytes ↦ elim (Option-cases (checked_add start len)) [
      | inl over ↦ rw (some_bytes, over, copy_bytes) refl
      | inr (end, h) ↦
          rw (some_bytes, h, copy_bytes) (confined.copy_keeps w c.physical c.page_offset _ q other)
    ]
  ]

  copy_chunk-keeps :
      (bytes : List ℕ) (size : ℕ) (c : Chunk) (offset : ℕ) (w : W)
      → q ≢ c.physical
      → frame (copy_chunk writer bytes size c offset w).0 q ≡ frame w q
  unfolding copy_chunk
  copy_chunk-keeps bytes size c offset w other =
      let start = least offset size in
      copy_bytes-keeps bytes c start (least (length bytes - start) c.len) w other

  -- A round writes the frame of its chunk and no other.
  pub populate_chunk-other :
      (loaded : LoadResult) (s : LoadSegment) (bytes : List ℕ) (memory_end offset : ℕ) (w : W)
      → ((c : Chunk) → next_chunk loaded s memory_end offset ≡ ok c → q ≢ c.physical)
      → frame (populate_chunk writer loaded s bytes memory_end offset w).0 q ≡ frame w q
  unfolding populate_chunk
  populate_chunk-other loaded s bytes memory_end offset w other =
      elim (Result-cases (next_chunk loaded s memory_end offset)) [
        | inr (e, h) ↦ rw (h, populate_chunk) refl
        | inl (c, h) ↦
            let apart = other c h in
            let cleared = confined.zero_keeps w c.physical 0 page_size_4k q apart in
            elim (Result-cases (writer.zero_page_range w c.physical 0 page_size_4k).1) [
              | inr (e, z) ↦ rw (h, populate_chunk) (rw z cleared)
              | inl (u, z) ↦
                  rw (h, populate_chunk)
                    (rw z (copy_chunk-keeps bytes s.file_size c offset _ apart ∙ cleared))
            ]
      ]

  populate_chunk-keeps :
      (loaded : LoadResult) (s : LoadSegment) (bytes : List ℕ) (memory_end offset : ℕ) (w : W)
      → ((i : ℕ) (p : MappedPage) → get_elem? loaded.pages i ≡ some p → q ≢ p.physical_address)
      → frame (populate_chunk writer loaded s bytes memory_end offset w).0 q ≡ frame w q
  populate_chunk-keeps loaded s bytes memory_end offset w other =
      populate_chunk-other loaded s bytes memory_end offset w (λ c h.
        let (i, p, at, same) = next_chunk-mapped loaded s memory_end offset c h in
        rw (← same) (other i p at))

  populate_chunks-keeps :
      (fuel : ℕ) (loaded : LoadResult) (s : LoadSegment) (bytes : List ℕ) (memory_end offset : ℕ)
      (w : W)
      → ((i : ℕ) (p : MappedPage) → get_elem? loaded.pages i ≡ some p → q ≢ p.physical_address)
      → frame (populate_chunks writer fuel loaded s bytes memory_end offset w).0 q ≡ frame w q
  unfolding populate_chunks
  populate_chunks-keeps zero loaded s bytes memory_end offset w other = refl
  populate_chunks-keeps (suc f) loaded s bytes memory_end offset w other =
      elim (Bool-cases (ltb offset s.memory_size)) [
        | inr e ↦ rw (e, populate_chunks) refl
        | inl e ↦
            let step = populate_chunk-keeps loaded s bytes memory_end offset w other in
            elim (Result-cases (populate_chunk writer loaded s bytes memory_end offset w).1) [
              | inr (x, h) ↦ rw (e, populate_chunks) (rw h step)
              | inl (next, h) ↦
                  rw (e, populate_chunks)
                    (rw h (populate_chunks-keeps f loaded s bytes memory_end next _ other ∙ step))
            ]
      ]

  populate_segments-keeps :
      (bytes : List ℕ) (loaded : LoadResult) (ss : List LoadSegment) (w : W)
      → ((i : ℕ) (p : MappedPage) → get_elem? loaded.pages i ≡ some p → q ≢ p.physical_address)
      → frame (populate_segments writer bytes loaded ss w).0 q ≡ frame w q
  unfolding populate_segments
  populate_segments-keeps bytes loaded [] w other = refl
  populate_segments-keeps bytes loaded (s ∷ ss) w other = elim (Result-cases (file_part bytes s)) [
    | inr (e, h) ↦ rw (h, populate_segments) refl
    | inl ((part, memory_end), h) ↦
        let step = populate_chunks-keeps s.memory_size loaded s part memory_end 0 w other in
        elim (Result-cases (populate_chunks writer s.memory_size loaded s part memory_end 0 w).1) [
          | inr (x, r) ↦ rw (h, populate_segments) (rw r step)
          | inl (u, r) ↦
              rw (h, populate_segments)
                (rw r (populate_segments-keeps bytes loaded ss _ other ∙ step))
        ]
  ]

  pub zero_stack-keeps :
      (ps : List MappedStackPage) (w : W)
      → ((i : ℕ) (p : MappedStackPage) → get_elem? ps i ≡ some p → q ≢ p.physical_address)
      → frame (zero_stack writer ps w).0 q ≡ frame w q
  unfolding zero_stack
  zero_stack-keeps [] w other = refl
  zero_stack-keeps (p ∷ ps) w other =
      let step = confined.zero_keeps w p.physical_address 0 page_size_4k q (other 0 p refl) in
      elim (Result-cases (writer.zero_page_range w p.physical_address 0 page_size_4k).1) [
        | inr (e, h) ↦ rw (h, zero_stack) step
        | inl (u, h) ↦ rw (h, zero_stack) (zero_stack-keeps ps _ (λ i. other (suc i)) ∙ step)
      ]

  -- Whatever its outcome, a population writes only frames that were mapped for the image or for the
  -- stack: the contents of any other frame are as before. The writer is any that writes no other frame
  -- than the one it is given.
  pub populate-keeps :
      (elf : ElfImage) (built : BuiltAddressSpace) (w : W)
      → ((i : ℕ) (p : MappedPage) → get_elem? built.load.pages i ≡ some p → q ≢ p.physical_address)
      → ((i : ℕ) (p : MappedStackPage)
          → get_elem? built.stack_pages i ≡ some p
          → q ≢ p.physical_address)
      → frame (populate writer elf built w).0 q ≡ frame w q
  unfolding populate populate_image
  populate-keeps elf built w other stack =
      let step = populate_segments-keeps elf.bytes built.load elf.segments w other in
      elim (Result-cases (populate_segments writer elf.bytes built.load elf.segments w).1) [
        | inr (e, h) ↦ rw (h, populate) step
        | inl (u, h) ↦ rw (h, populate) (zero_stack-keeps built.stack_pages _ stack ∙ step)
      ]

-- A chunk takes at least one byte while there are bytes left.
pub next_chunk-positive :
    (loaded : LoadResult) (s : LoadSegment) (memory_end offset : ℕ) (c : Chunk)
    → next_chunk loaded s memory_end offset ≡ ok c
    → offset < s.memory_size
    → 0 < c.len
unfolding next_chunk page mapped_pages
next_chunk-positive loaded s memory_end offset c h more =
    elim (Option-cases (find_mapped_page loaded (page_base (s.virtual_range.start + offset)))) [
      | inl missing ↦ absurd (ground arith)
      | inr (i, found) ↦ elim (Option-cases (get_elem? loaded.pages i)) [
        | inl out ↦ absurd (ground arith)
        | inr (p, at) ↦ ground arith
      ]
    ]

module _ {W E : Type 0} (writer : ImagePageWriter W E) where
  pub populate_chunk-next :
      (loaded : LoadResult) (s : LoadSegment) (bytes : List ℕ) (memory_end offset next : ℕ) (w : W)
      → (populate_chunk writer loaded s bytes memory_end offset w).1 ≡ ok next
      → offset < s.memory_size
      → offset < next
  unfolding populate_chunk
  populate_chunk-next loaded s bytes memory_end offset next w r more =
      elim (Result-cases (next_chunk loaded s memory_end offset)) [
        | inr (e, h) ↦ absurd (ground arith)
        | inl (c, h) ↦
            let positive = next_chunk-positive loaded s memory_end offset c h more in
            elim (Result-cases (writer.zero_page_range w c.physical 0 page_size_4k).1) [
              | inr (e, z) ↦ absurd (ground arith)
              | inl (u, z) ↦
                  elim (Result-cases
                    (copy_chunk writer bytes s.file_size c offset
                      (writer.zero_page_range w c.physical 0 page_size_4k).0).1) [
                        | inr (e, k) ↦ absurd (ground arith)
                        | inl (v, k) ↦ ground arith
                      ]
            ]
      ]

  -- Once the fuel is at least the bytes that are left, one more unit changes nothing.
  populate_chunks_fuel :
      (fuel : ℕ) (loaded : LoadResult) (s : LoadSegment) (bytes : List ℕ) (memory_end offset : ℕ)
      (w : W)
      → s.memory_size ≤ offset + fuel
      → populate_chunks writer (suc fuel) loaded s bytes memory_end offset w
        ≡ populate_chunks writer fuel loaded s bytes memory_end offset w
  unfolding populate_chunks
  populate_chunks_fuel zero loaded s bytes memory_end offset w enough =
      let e : ltb offset s.memory_size ≡ false = ground arith in rw (e, populate_chunks) refl
  populate_chunks_fuel (suc f) loaded s bytes memory_end offset w enough =
      elim (Bool-cases (ltb offset s.memory_size)) [
        | inr e ↦ rw (e, populate_chunks) refl
        | inl e ↦ elim (Result-cases (populate_chunk writer loaded s bytes memory_end offset w).1) [
          | inr (x, h) ↦ rw (e, populate_chunks) (rw h refl)
          | inl (next, h) ↦
              let further =
                populate_chunk-next loaded s bytes memory_end offset next w h (ground arith) in
              rw (e, populate_chunks)
                (rw h (populate_chunks_fuel f loaded s bytes memory_end next _ (omega arith)))
        ]
      ]
