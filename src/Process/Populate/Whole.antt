-- ===== src/Process/Populate/Whole.antt =====
-- What an address space holds after its population.
use x.Base.{
  ℕ, zero, suc, ◌+◌, ◌-◌, ◌<◌, ◌≡◌, ◌≢◌, ◌∙◌, inl, inr, refl, sym, ap, subst, some, List, [], ◌∷◌,
  get_elem?, ok, Result-cases, arith,
}
use x.Memory.Page.{page_base}
use x.Process.Elf.{ElfImage, LoadSegment}
use x.Process.Loader.{LoadResult, MappedPage}
use x.Process.Builder.{BuiltAddressSpace, MappedStackPage}
use x.Process.Launch.{PopulatedAddressSpace}
use x.Process.Populate.{
  ImagePageWriter, file_part, populate_chunks, populate_segments, populate_image, zero_stack,
  populate,
}
use x.Process.Populate.Bytes.{segment_byte, file_part-bytes}
use x.Process.Populate.Laws.{zero_stack-keeps}
use x.Process.Populate.Round.{Stores}
use x.Process.Populate.Contents.{OneFrameEach, Holds, populate_chunks-later, populate_chunks-Holds}

-- No two segments have addresses in one page.
abbrev pub Apart : List LoadSegment → Type 0
Apart ss =
    (k l : ℕ) (s t : LoadSegment) (o u : ℕ)
    → get_elem? ss k ≡ some s
    → get_elem? ss l ≡ some t
    → k ≢ l
    → o < s.memory_size
    → u < t.memory_size
    → page_base (s.virtual_range.start + o) ≢ page_base (t.virtual_range.start + u)

module _ {W E : Type 0} (writer : ImagePageWriter W E) (frame : W → ℕ → ℕ → ℕ)
    (stores : Stores writer frame) where
  populate_segments-later :
      (bytes : List ℕ) (loaded : LoadResult) (ss : List LoadSegment) (w : W) (q : ℕ)
      → ((k : ℕ) (t : LoadSegment)
          → get_elem? ss k ≡ some t
          → (i : ℕ) (p : MappedPage) (o : ℕ) → get_elem? loaded.pages i ≡ some p
          → o < t.memory_size
          → p.virtual_address ≡ page_base (t.virtual_range.start + o)
          → q ≢ p.physical_address)
      → frame (populate_segments writer bytes loaded ss w).0 q ≡ frame w q
  unfolding populate_segments
  populate_segments-later bytes loaded [] w q other = refl
  populate_segments-later bytes loaded (s ∷ ss) w q other =
      elim (Result-cases (file_part bytes s)) [
        | inr (e, h) ↦ rw (h, populate_segments) refl
        | inl ((part, memory_end), h) ↦
            let step =
              populate_chunks-later writer frame stores s.memory_size loaded s part memory_end 0 w q
                (λ i p o at from. other 0 s refl i p o at) in
            elim (Result-cases
              (populate_chunks writer s.memory_size loaded s part memory_end 0 w).1) [
                | inr (x, r) ↦ rw (h, populate_segments) (rw r step)
                | inl (u, r) ↦
                    rw (h, populate_segments)
                      (rw r
                        (populate_segments-later bytes loaded ss _ q (λ k. other (suc k)) ∙ step))
              ]
      ]

  -- A later state holds the same byte where it keeps the frames of the segment.
  Holds-kept :
      (loaded : LoadResult) (s : LoadSegment) (w w' : W) (o byte : ℕ)
      → ((i : ℕ) (p : MappedPage)
          → get_elem? loaded.pages i ≡ some p
          → p.virtual_address ≡ page_base (s.virtual_range.start + o)
          → frame w' p.physical_address ≡ frame w p.physical_address)
      → Holds writer frame stores loaded s w o byte
      → Holds writer frame stores loaded s w' o byte
  Holds-kept loaded s w w' o byte kept (i, p, at, here, held) = (
    i,
    p,
    at,
    here,
    ap (λ g. g ((s.virtual_range.start + o) - page_base (s.virtual_range.start + o)))
          (kept i p at here)
        ∙ held,
  )

  -- The parts of a population of segments that succeeds.
  populate_segments-parts :
      (bytes : List ℕ) (loaded : LoadResult) (t : LoadSegment) (ss : List LoadSegment) (w : W)
      → (populate_segments writer bytes loaded (t ∷ ss) w).1 ≡ ok tt
      → (part : List ℕ) × (memory_end : ℕ) × (file_part bytes t ≡ ok (part, memory_end))
        × ((populate_chunks writer t.memory_size loaded t part memory_end 0 w).1 ≡ ok tt)
        × ((populate_segments writer bytes loaded ss
              (populate_chunks writer t.memory_size loaded t part memory_end 0 w).0).1
            ≡ ok tt)
        × ((populate_segments writer bytes loaded (t ∷ ss) w).0
            ≡ (populate_segments writer bytes loaded ss
                (populate_chunks writer t.memory_size loaded t part memory_end 0 w).0).0)
  unfolding populate_segments
  populate_segments-parts bytes loaded t ss w r = elim (Result-cases (file_part bytes t)) [
    | inr (e, h) ↦ absurd (ground arith)
    | inl ((part, memory_end), h) ↦
        elim (Result-cases (populate_chunks writer t.memory_size loaded t part memory_end 0 w).1) [
          | inr (x, c) ↦ absurd (ground arith)
          | inl (u, c) ↦
              (part, memory_end, h, c, ground arith, rw (h, populate_segments) (rw c refl))
        ]
  ]

  populate_segments-Holds :
      (bytes : List ℕ) (loaded : LoadResult) (ss : List LoadSegment) (w : W)
      → (populate_segments writer bytes loaded ss w).1 ≡ ok tt
      → OneFrameEach writer frame stores loaded
      → Apart ss
      → (k : ℕ) (s : LoadSegment) (o : ℕ) → get_elem? ss k ≡ some s
      → o < s.memory_size
      → Holds writer frame stores loaded s
          (populate_segments writer bytes loaded ss w).0
          o
          (segment_byte bytes s o)
  populate_segments-Holds bytes loaded [] w r one apart k s o at low = absurd (ground arith)
  populate_segments-Holds bytes loaded (t ∷ ss) w r one apart zero s o at low =
      let (part, memory_end, h, c, rest, steps) = populate_segments-parts bytes loaded t ss w r in
      let (size, file) = file_part-bytes bytes t part memory_end h in
      let w1 = (populate_chunks writer t.memory_size loaded t part memory_end 0 w).0 in
      let same : t ≡ s = ground arith in
      let below : o < t.memory_size = subst (λ x. o < x.memory_size) (sym same) low in
      let held : Holds writer frame stores loaded t w1 o (segment_byte bytes t o) =
        subst (λ b. Holds writer frame stores loaded t w1 o b) (file o)
          (populate_chunks-Holds writer frame stores t.memory_size loaded t part memory_end 0 w c
            size one o (omega arith) below) in
      let later = populate_segments-later bytes loaded ss w1 in
      let final : Holds writer frame stores loaded t (populate_segments writer bytes loaded ss w1).0
          o (segment_byte bytes t o) =
        Holds-kept loaded t w1 (populate_segments writer bytes loaded ss w1).0 o
          (segment_byte bytes t o)
          (λ i p at_i here. later p.physical_address (λ l u at_l j q v at_j under there e.
            apart 0 (suc l) t u o v refl at_l (λ z. omega arith) below under
              (sym here ∙ (one i j p q at_i at_j e ∙ there))))
          held in
      subst
        (λ x.
          Holds writer frame stores loaded x (populate_segments writer bytes loaded (t ∷ ss) w).0 o
            (segment_byte bytes x o))
        same
        (subst (λ x. Holds writer frame stores loaded t x o (segment_byte bytes t o)) (sym steps)
          final)
  populate_segments-Holds bytes loaded (t ∷ ss) w r one apart (suc k) s o at low =
      let (part, memory_end, h, c, rest, steps) = populate_segments-parts bytes loaded t ss w r in
      let w1 = (populate_chunks writer t.memory_size loaded t part memory_end 0 w).0 in
      subst (λ x. Holds writer frame stores loaded s x o (segment_byte bytes s o)) (sym steps)
        (populate_segments-Holds bytes loaded ss w1 rest one
          (λ i j u v a b at_i at_j ne. apart (suc i) (suc j) u v a b at_i at_j (λ e. omega arith)) k
          s o at low)

  -- After a population that succeeds, memory holds the image: at each address of each segment, the page
  -- of the address is mapped, and its frame has the byte of the file there, or zero beyond the part of
  -- the segment that the file has. It is asked that distinct pages have distinct frames, that the frames
  -- of the stack are others, that no two segments share a page, and that the writer of pages writes what
  -- it says into the frame it is given, and no other.
  pub populate-Holds :
      (elf : ElfImage) (built : BuiltAddressSpace) (populated : PopulatedAddressSpace) (w : W)
      → (populate writer elf built w).1 ≡ ok populated
      → OneFrameEach writer frame stores built.load
      → ((i j : ℕ) (p : MappedPage) (q : MappedStackPage)
          → get_elem? built.load.pages i ≡ some p
          → get_elem? built.stack_pages j ≡ some q
          → p.physical_address ≢ q.physical_address)
      → Apart elf.segments
      → (k : ℕ) (s : LoadSegment) (o : ℕ) → get_elem? elf.segments k ≡ some s
      → o < s.memory_size
      → Holds writer frame stores built.load s
          (populate writer elf built w).0
          o
          (segment_byte elf.bytes s o)
  unfolding populate populate_image
  populate-Holds elf built populated w r one stack apart k s o at low =
      elim (Result-cases (populate_segments writer elf.bytes built.load elf.segments w).1) [
        | inr (e, h) ↦ absurd (ground arith)
        | inl (u, h) ↦
            let w1 = (populate_segments writer elf.bytes built.load elf.segments w).0 in
            let steps : (populate writer elf built w).0
                ≡ (zero_stack writer built.stack_pages w1).0 =
              rw (h, populate) refl in
            let held =
              populate_segments-Holds elf.bytes built.load elf.segments w h one apart k s o at
                low in
            subst (λ x. Holds writer frame stores built.load s x o (segment_byte elf.bytes s o))
              (sym steps)
              (Holds-kept built.load s w1 (zero_stack writer built.stack_pages w1).0 o
                (segment_byte elf.bytes s o)
                (λ i p at_i here.
                  zero_stack-keeps writer frame stores.confined p.physical_address built.stack_pages
                    w1 (λ j q at_j. stack i j p q at_i at_j))
                held)
      ]
