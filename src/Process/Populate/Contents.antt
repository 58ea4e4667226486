-- ===== src/Process/Populate/Contents.antt =====
-- What the pages of a segment hold after its population.
use x.Base.{
  byte_at, ℕ, zero, suc, ◌+◌, ◌-◌, ◌≤◌, ◌<◌, ◌≡◌, ◌≢◌, ◌∙◌, inl, inr, refl, sym, ap, subst, true,
  false, some, List, length, get_elem?, ltb, ok, Result-cases, Bool-cases, arith,
}
use x.Memory.Page.{page_base}
use x.Process.Elf.{LoadSegment}
use x.Process.Loader.{LoadResult, MappedPage}
use x.Process.Populate.{ImagePageWriter, Chunk, next_chunk, populate_chunk, populate_chunks}
use x.Process.Populate.Laws.{populate_chunk-other, populate_chunk-next}
use x.Process.Populate.Round.{
  Stores, next_chunk-Placed, page_base_near, populate_chunk-holds, populate_chunk-ok,
}

module _ {W E : Type 0} (writer : ImagePageWriter W E) (frame : W → ℕ → ℕ → ℕ)
    (stores : Stores writer frame) where
  -- The rounds from an offset on keep every frame but those of the pages of what is left of the segment.
  pub populate_chunks-later :
      (fuel : ℕ) (loaded : LoadResult) (s : LoadSegment) (bytes : List ℕ) (memory_end offset : ℕ)
      (w : W) (q : ℕ)
      → ((i : ℕ) (p : MappedPage) (o : ℕ)
          → get_elem? loaded.pages i ≡ some p
          → offset ≤ o
          → o < s.memory_size
          → p.virtual_address ≡ page_base (s.virtual_range.start + o)
          → q ≢ p.physical_address)
      → frame (populate_chunks writer fuel loaded s bytes memory_end offset w).0 q ≡ frame w q
  unfolding populate_chunks
  populate_chunks-later zero loaded s bytes memory_end offset w q other = refl
  populate_chunks-later (suc f) loaded s bytes memory_end offset w q other =
      elim (Bool-cases (ltb offset s.memory_size)) [
        | inr e ↦ rw (e, populate_chunks) refl
        | inl e ↦
            let step =
              populate_chunk-other writer frame stores.confined q loaded s bytes memory_end offset w
                (λ c h.
                  let (i, p, at, here, same, _, _) =
                    next_chunk-Placed loaded s memory_end offset c h in
                  rw (← same) (other i p offset at (omega arith) (ground (arith, e)) here)) in
            elim (Result-cases (populate_chunk writer loaded s bytes memory_end offset w).1) [
              | inr (x, h) ↦ rw (e, populate_chunks) (rw h step)
              | inl (next, h) ↦
                  let further =
                    populate_chunk-next writer loaded s bytes memory_end offset next w h
                      (ground arith) in
                  rw (e, populate_chunks)
                    (rw h (
                      populate_chunks-later f loaded s bytes memory_end next _ q
                        (λ i p o at from. other i p o at (omega (arith, from, further)))
                      ∙ step))
            ]
      ]

  -- Two pages that are mapped to the same frame are the same page.
  abbrev pub OneFrameEach : LoadResult → Type 0
  OneFrameEach loaded =
      (i j : ℕ) (p q : MappedPage)
      → get_elem? loaded.pages i ≡ some p
      → get_elem? loaded.pages j ≡ some q
      → p.physical_address ≡ q.physical_address
      → p.virtual_address ≡ q.virtual_address

  -- The byte that is in memory at an offset of a segment.
  abbrev pub Holds : LoadResult → LoadSegment → W → ℕ → ℕ → Type 0
  Holds loaded s w o byte =
      let a = s.virtual_range.start + o in
      (i : ℕ) × (p : MappedPage) × (get_elem? loaded.pages i ≡ some p)
      × (p.virtual_address ≡ page_base a)
      × (frame w p.physical_address (a - page_base a) ≡ byte)

  populate_chunks-done :
      (fuel : ℕ) (loaded : LoadResult) (s : LoadSegment) (bytes : List ℕ) (memory_end offset : ℕ)
      (w : W)
      → s.memory_size ≤ offset
      → (populate_chunks writer fuel loaded s bytes memory_end offset w).0 ≡ w
  unfolding populate_chunks
  populate_chunks-done zero loaded s bytes memory_end offset w h = refl
  populate_chunks-done (suc f) loaded s bytes memory_end offset w h =
      let e : ltb offset s.memory_size ≡ false = ground arith in rw (e, populate_chunks) refl

  -- The rounds that follow one keep its frame, as they are about later pages.
  populate_chunks-after :
      (fuel : ℕ) (loaded : LoadResult) (s : LoadSegment) (bytes : List ℕ) (memory_end offset : ℕ)
      (c : Chunk) (w : W)
      → next_chunk loaded s memory_end offset ≡ ok c
      → OneFrameEach loaded
      → frame
          (populate_chunks writer fuel loaded s bytes memory_end (offset + c.len) w).0
          c.physical
        ≡ frame w c.physical
  populate_chunks-after fuel loaded s bytes memory_end offset c w k one =
      let (i, p, at, here, same, _, len) = next_chunk-Placed loaded s memory_end offset c k in
      elim (Bool-cases (ltb (offset + c.len) s.memory_size)) [
        | inr over ↦
            ap (λ x. frame x c.physical)
              (populate_chunks-done fuel loaded s bytes memory_end (offset + c.len) w
                (ground (arith, over)))
        | inl more ↦
            let full : c.len
                ≡ 4096
                  - ((s.virtual_range.start + offset)
                      - page_base (s.virtual_range.start + offset)) =
              ground (arith, len, more) in
            populate_chunks-later fuel loaded s bytes memory_end (offset + c.len) w c.physical
              (λ j q o at_j from below base e.
                let one_page = one i j p q at at_j (same ∙ e) in
                omega (arith, full, here, one_page, from, base))
      ]

  pub populate_chunks-Holds :
      (fuel : ℕ) (loaded : LoadResult) (s : LoadSegment) (bytes : List ℕ) (memory_end offset : ℕ)
      (w : W)
      → (populate_chunks writer fuel loaded s bytes memory_end offset w).1 ≡ ok tt
      → length bytes ≡ s.file_size
      → OneFrameEach loaded
      → (o : ℕ) → offset ≤ o
      → o < s.memory_size
      → Holds loaded s
          (populate_chunks writer fuel loaded s bytes memory_end offset w).0
          o
          (byte_at bytes o)
  unfolding populate_chunks
  populate_chunks-Holds zero loaded s bytes memory_end offset w r size one o low high =
      absurd (ground arith)
  populate_chunks-Holds (suc f) loaded s bytes memory_end offset w r size one o low high =
      let e : ltb offset s.memory_size ≡ true = ground arith in
      elim (Result-cases (populate_chunk writer loaded s bytes memory_end offset w).1) [
        | inr (x, h) ↦ absurd (ground arith)
        | inl (next, h) ↦
            let w' = (populate_chunk writer loaded s bytes memory_end offset w).0 in
            let rest : (populate_chunks writer f loaded s bytes memory_end next w').1 ≡ ok tt =
              ground arith in
            let steps : (populate_chunks writer (suc f) loaded s bytes memory_end offset w).0
                ≡ (populate_chunks writer f loaded s bytes memory_end next w').0 =
              rw (e, populate_chunks) (rw h refl) in
            let (c, k, at_next) =
              populate_chunk-ok writer frame stores loaded s bytes memory_end offset next w h in
            let (i, p, at, here, same, in_page, len) =
              next_chunk-Placed loaded s memory_end offset c k in
            elim (Bool-cases (ltb o next)) [
              | inr later ↦
                  subst (λ x. Holds loaded s x o (byte_at bytes o)) (sym steps)
                    (populate_chunks-Holds f loaded s bytes memory_end next w' rest size one o
                      (ground (arith, later)) high)
              | inl now ↦
                  let a = s.virtual_range.start + offset in
                  let j = o - offset in
                  let inside : j < c.len = ground (arith, now, at_next) in
                  let bound : (a - page_base a) + c.len ≤ 4096 = ground (arith, len) in
                  let (base, place) = page_base_near a j (omega arith) in
                  let there : s.virtual_range.start + o ≡ a + j = omega arith in
                  let index : offset + j ≡ o = omega arith in
                  let round =
                    populate_chunk-holds writer frame stores loaded s bytes memory_end offset next j
                      c w h k (omega (arith, in_page, bound)) size inside in
                  let kept = populate_chunks-after f loaded s bytes memory_end offset c w' k one in
                  let at_address : p.virtual_address ≡ page_base (s.virtual_range.start + o) =
                    omega (arith, here, base, there) in
                  let spot : (s.virtual_range.start + o) - page_base (s.virtual_range.start + o)
                      ≡ c.page_offset + j =
                    omega (arith, there, place, in_page) in
                  let ends : frame (populate_chunks writer f loaded s bytes memory_end next w').0
                        p.physical_address
                      ≡ frame w' c.physical =
                    subst
                      (λ n.
                        frame (populate_chunks writer f loaded s bytes memory_end n w').0
                          p.physical_address
                        ≡ frame w' c.physical)
                      (sym at_next)
                      (subst
                        (λ q.
                          frame
                            (populate_chunks writer f loaded s bytes memory_end (offset + c.len)
                              w').0
                            q
                          ≡ frame w' c.physical)
                        (sym same) kept) in
                  let index_in =
                    (s.virtual_range.start + o) - page_base (s.virtual_range.start + o) in
                  (
                    i,
                    p,
                    at,
                    at_address,
                    ap (λ x. frame x p.physical_address index_in) steps
                        ∙ (ap (λ g. g index_in) ends
                            ∙ (ap (frame w' c.physical) spot ∙ (round ∙ ap (byte_at bytes) index))),
                  )
            ]
      ]
